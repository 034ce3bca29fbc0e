-- ===== src/Block/Ram.antt =====
-- A drive in memory, which shows that a reliable device exists.
use ring_os.Prelude.{
  ℕ, zero, suc, ◌+◌, ◌-◌, ◌*◌, ◌≤◌, ◌<◌, ◌≡◌, ◌⊎◌, refl, ap, ◌∙◌, Bool, true, false, ◌&&◌, none,
  some, List, [], ◌∷◌, arith, ltb, leb, if◌then◌else◌, length, take, drop, length-take, length-drop,
  lt→ltb, le→leb, append-nil,
}
use ring_os.Block.{BlockDevice, IsReliable, gather}

-- The first `n` bytes of a list, with zeros behind its end.
unfoldable pub fit : ℕ → List ℕ → List ℕ
fit zero bytes = []
fit (suc n) [] = 0 ∷ fit n []
fit (suc n) (x ∷ bytes) = x ∷ fit n bytes

pub length-fit : (n : ℕ) (bytes : List ℕ) → length (fit n bytes) ≡ n
unfolding fit
length-fit zero bytes = refl
length-fit (suc n) [] = ap suc (length-fit n [])
length-fit (suc n) (x ∷ bytes) = ap suc (length-fit n bytes)

pub fit_id : (n : ℕ) (bytes : List ℕ) → length bytes ≡ n → fit n bytes ≡ bytes
unfolding fit
fit_id zero [] h = refl
fit_id zero (x ∷ bytes) h = absurd (omega arith)
fit_id (suc n) [] h = absurd (omega arith)
fit_id (suc n) (x ∷ bytes) h = ap (λ l. x ∷ l) (fit_id n bytes (omega arith))

abbrev pub ram_size : ℕ
ram_size = 65536

-- Sector `l` after `n` sectors from `lba` on were written.
abbrev pub put_sectors : (ℕ → List ℕ) → ℕ → ℕ → List ℕ → ℕ → List ℕ
put_sectors s lba n bytes l =
    if leb lba l && ltb l (lba + n) then take 512 (drop (512 * (l - lba)) bytes) else s l

abbrev pub ram : BlockDevice
ram = record {
  State = ℕ → List ℕ;
  read_sectors = λ s lba n.
      (s, if leb (lba + n) ram_size then some (gather (λ l. fit 512 (s l)) lba n) else none);
  write_sectors = λ s lba n bytes.
      if leb (lba + n) ram_size then (put_sectors s lba n bytes, true) else (s, false);
}

pub read_runs :
    (s : ℕ → List ℕ) (lba n : ℕ)
    → lba + n ≤ ram_size
    → (ram.read_sectors s lba n).1 ≡ some (gather (λ l. fit 512 (s l)) lba n)
read_runs s lba n h = rw (le→leb _ _ h) refl

pub write_runs :
    (s : ℕ → List ℕ) (lba n : ℕ) (bytes : List ℕ)
    → lba + n ≤ ram_size
    → ram.write_sectors s lba n bytes ≡ (put_sectors s lba n bytes, true)
write_runs s lba n bytes h = rw (le→leb _ _ h) refl

-- What a sector holds after a write.
pub written_at :
    (s : ℕ → List ℕ) (lba n k : ℕ) (bytes : List ℕ)
    → lba + n ≤ ram_size
    → length bytes ≡ 512 * n
    → k < n
    → fit 512 ((ram.write_sectors s lba n bytes).0 (lba + k)) ≡ take 512 (drop (512 * k) bytes)
written_at s lba n k bytes h len lt =
    let a : leb lba (lba + k) ≡ true = le→leb _ _ (omega arith) in
    let b : ltb (lba + k) (lba + n) ≡ true = lt→ltb _ _ (omega arith) in
    let c : lba + k - lba ≡ k = omega arith in
    ap (λ (r : (ℕ → List ℕ) × Bool). fit 512 (r.0 (lba + k))) (write_runs s lba n bytes h)
    ∙ rw (a, b, c)
        (fit_id 512 (take 512 (drop (512 * k) bytes))
          (omega (arith, length-take 512 (drop (512 * k) bytes), length-drop (512 * k) bytes)))

pub written_ne :
    (s : ℕ → List ℕ) (lba n l : ℕ) (bytes : List ℕ)
    → lba + n ≤ ram_size
    → (l < lba) ⊎ (lba + n ≤ l)
    → fit 512 ((ram.write_sectors s lba n bytes).0 l) ≡ fit 512 (s l)
written_ne s lba n l bytes h apart =
    ap (λ (r : (ℕ → List ℕ) × Bool). fit 512 (r.0 l)) (write_runs s lba n bytes h) ∙ ground arith

pub take_all_bytes : (n : ℕ) (bytes : List ℕ) → length bytes ≡ n → take n bytes ≡ bytes
take_all_bytes zero [] h = refl
take_all_bytes zero (x ∷ bytes) h = absurd (omega arith)
take_all_bytes (suc n) [] h = refl
take_all_bytes (suc n) (x ∷ bytes) h = ap (λ l. x ∷ l) (take_all_bytes n bytes (omega arith))

pub written_self :
    (s : ℕ → List ℕ) (lba : ℕ) (bytes : List ℕ)
    → lba < ram_size
    → length bytes ≡ 512
    → fit 512 ((ram.write_sectors s lba 1 bytes).0 lba) ≡ bytes
written_self s lba bytes h len =
    let here : lba + 0 ≡ lba = omega arith in
    rw here at (written_at s lba 1 0 bytes (omega arith) (omega arith) (omega arith))
    ∙ take_all_bytes 512 bytes len

abbrev pub ram_reliable : IsReliable ram
ram_reliable = record {
  capacity = ram_size;
  contents = λ s lba. fit 512 (s lba);
  size = λ s lba. length-fit 512 (s lba);
  read_value = λ s lba h. read_runs s lba 1 (omega arith) ∙ ap some (append-nil (fit 512 (s lba)));
  read_keeps = λ s lba l h. refl;
  write_done = λ s lba bytes h len.
      ap (λ (r : (ℕ → List ℕ) × Bool). r.1) (write_runs s lba 1 bytes (omega arith));
  write_self = written_self;
  write_ne = λ s lba l bytes h len ne. written_ne s lba 1 l bytes (omega arith) (ground arith);
  read_many = λ s lba n h byte. read_runs s lba n h;
  read_many_keeps = λ s lba n l h byte. refl;
  write_many = λ s lba n bytes h byte len.
      ap (λ (r : (ℕ → List ℕ) × Bool). r.1) (write_runs s lba n bytes h);
  write_many_at = λ s lba n k bytes h byte len lt. written_at s lba n k bytes h len lt;
  write_many_ne = λ s lba n l bytes h byte len apart. written_ne s lba n l bytes h apart;
}
