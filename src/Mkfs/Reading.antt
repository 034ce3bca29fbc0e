-- ===== src/Mkfs/Reading.antt =====
-- tools/mkfs.c and drivers/fat32.c: the driver on a disk that holds the image.
use ring_os.Prelude.{
  ℕ, zero, suc, ◌+◌, ◌-◌, ◌*◌, ◌/◌, ◌%◌, ◌^◌, ◌≤◌, ◌<◌, ◌≡◌, inl, inr, refl, sym, ap, ◌∙◌, List, [],
  ◌∷◌, ◌++◌, arith, length, get_or, take, u32_mod, Bool, true, false, ltb, ◌==◌, if◌then◌else◌,
  Bool-cases, ltb→lt, ltb→le, lt→ltb, le→ltb, ≢→==, ==_iff,
}
use ring_os.Block.{gather}
use ring_os.Fat.{Volume, cluster_to_lba}
use ring_os.Fat.Dir.{Memory, bytes_at}
use ring_os.Fat.Words.{word}
use ring_os.Fat.Clusters.Chain.{IsChain}
use ring_os.Fat.Files.{sectors_for}
use ring_os.Fat.Files.Bytes.{
  slice, slice-add, take-append_left, take-append_right, take-slice, length-bytes_at,
}
use ring_os.Fat.Files.Reading.{file_bytes, AllFit}
use ring_os.Mkfs.{load32}
use ring_os.Mkfs.Alloc.{link}
use ring_os.Mkfs.Frame.{place}

-- A sector of the image.
abbrev pub sector : Memory → ℕ → List ℕ
sector b l = slice b (512 * l) 512

get_or-bytes_at : (m : Memory) (n i : ℕ) → i < n → get_or (bytes_at m n) i 0 ≡ m i
get_or-bytes_at m zero i h = absurd (omega arith)
get_or-bytes_at m (suc n) zero h = refl
get_or-bytes_at m (suc n) (suc i) h = get_or-bytes_at (λ k. m (suc k)) n i (omega arith)

pub get_or-sector : (b : Memory) (l i : ℕ) → i < 512 → get_or (sector b l) i 0 ≡ b (512 * l + i)
get_or-sector b l i h = get_or-bytes_at (λ k. b (512 * l + k)) 512 i h

pub word-sector :
    (b : Memory) (l i : ℕ) → i < 128 → word (sector b l) i ≡ load32 b (512 * l + 4 * i)
unfolding word load32
word-sector b l i h =
    let e1 : 512 * l + (4 * i + 1) ≡ 512 * l + 4 * i + 1 = omega arith in
    let e2 : 512 * l + (4 * i + 2) ≡ 512 * l + 4 * i + 2 = omega arith in
    let e3 : 512 * l + (4 * i + 3) ≡ 512 * l + 4 * i + 3 = omega arith in
    omega (
      arith,
      get_or-sector b l (4 * i) (omega arith),
      get_or-sector b l (4 * i + 1) (omega arith) ∙ ap b e1,
      get_or-sector b l (4 * i + 2) (omega arith) ∙ ap b e2,
      get_or-sector b l (4 * i + 3) (omega arith) ∙ ap b e3,
    )

-- The clusters of a file, one behind the other.
abbrev pub range : ℕ → ℕ → List ℕ
range c zero = []
range c (suc n) = c ∷ range (c + 1) n

pub length-range : (c n : ℕ) → length (range c n) ≡ n
length-range c zero = refl
length-range c (suc n) = ap suc (length-range (c + 1) n)

-- The entries that link the clusters are a chain for the driver.
pub range-IsChain :
    (t : ℕ → ℕ) (first count j left : ℕ)
    → j + left ≡ count
    → 1 ≤ left
    → 2 ≤ first
    → first + count ≤ 8172
    → ((k : ℕ) → k < count → t (first + k) ≡ link first count k)
    → IsChain t 8192 (first + j) (range (first + j) left)
range-IsChain t first count j zero e some_left two room h = absurd (omega arith)
range-IsChain t first count j (suc zero) e some_left two room h =
    let last : (j + 1 == count) ≡ true = ground arith in
    let at : t (first + j) ≡ 0x0FFFFFFF =
      h j (omega arith) ∙ ap (λ (b : Bool). if b then 0x0FFFFFFF else first + j + 1) last in
    rw at (refl, omega arith, omega arith, omega arith, (λ bad. absurd (omega arith)), omega arith)
range-IsChain t first count j (suc (suc left)) e some_left two room h =
    let more : (j + 1 == count) ≡ false = ground arith in
    let at : t (first + j) ≡ first + j + 1 =
      h j (omega arith) ∙ ap (λ (b : Bool). if b then 0x0FFFFFFF else first + j + 1) more in
    let low : (first + j + 1) % 2 ^ 28 ≡ first + j + 1 = omega arith in
    let next : first + (j + 1) ≡ first + j + 1 = omega arith in
    (
      refl,
      omega arith,
      omega arith,
      omega arith,
      (λ bad. absurd (omega (arith, at, low, bad))),
      rw (at, low)
          (rw next at (
            range-IsChain t first count (j + 1) (suc left) (omega arith) (omega arith) two room h)),
    )

-- The volume that the driver mounts.
abbrev pub image_volume : Volume
image_volume = record {
  fat_begin_lba = 32;
  cluster_begin_lba = 160;
  sectors_per_cluster = 8;
  num_fats = 2;
  fat_size_32 = 64;
  root_cluster = 2;
}

pub cluster_to_lba-image :
    (c : ℕ) → 2 ≤ c → c < 8192 → cluster_to_lba image_volume c ≡ 160 + (c - 2) * 8
unfolding cluster_to_lba
cluster_to_lba-image c two lt = omega arith

pub range-AllFit :
    (capacity c n : ℕ)
    → 65536 ≤ capacity
    → 2 ≤ c
    → c + n ≤ 8172
    → AllFit image_volume capacity (range c n)
range-AllFit capacity c zero large two room = tt
range-AllFit capacity c (suc n) large two room = (
  omega (arith, cluster_to_lba-image c two (omega arith)),
  range-AllFit capacity (c + 1) n large (omega arith) (omega arith),
)

sectors_for_all :
    (left : ℕ) → 4096 < left → left + 511 < u32_mod → sectors_for image_volume left ≡ 8
unfolding sectors_for
sectors_for_all left many small =
    let wrap : (left + 511) % u32_mod ≡ left + 511 = omega arith in
    let more : ltb 8 ((left + 511) / 512) ≡ true = lt→ltb _ _ (omega arith) in
    rw (sectors_for, wrap, more) refl

sectors_for_part : (left : ℕ) → left ≤ 4096 → sectors_for image_volume left ≡ (left + 511) / 512
unfolding sectors_for
sectors_for_part left few =
    let wrap : (left + 511) % u32_mod ≡ left + 511 = omega arith in
    let less : ltb 8 ((left + 511) / 512) ≡ false = le→ltb _ _ (omega arith) in
    rw (sectors_for, wrap, less) refl

part_fits : (left : ℕ) → left ≤ 4096 → (left + 511) / 512 ≤ 8
part_fits left few = omega arith

part_covers : (left : ℕ) → left ≤ 512 * ((left + 511) / 512)
part_covers left = omega arith

module _ (b : Memory) (f : ℕ → List ℕ) (held : (l : ℕ) → l < 65536 → f l ≡ sector b l) where
  gather-held : (l n : ℕ) → l + n ≤ 65536 → gather f l n ≡ slice b (512 * l) (512 * n)
  gather-held l zero h = refl
  gather-held l (suc n) h =
      let size : 512 * suc n ≡ 512 + 512 * n = omega arith in
      let next : 512 * (l + 1) ≡ 512 * l + 512 = omega arith in
      rw (held l (omega arith), gather-held (l + 1) n (omega arith), size, next)
        (sym (slice-add b (512 * l) 512 (512 * n)))

  -- The driver's first read of a file.
  first_read :
      (c left k : ℕ) (cs : List ℕ)
      → 2 ≤ c
      → c < 8172
      → (left == 0) ≡ false
      → sectors_for image_volume left ≡ k
      → k ≤ 8
      → file_bytes f image_volume left (c ∷ cs)
        ≡ slice b (place c) (512 * k) ++ file_bytes f image_volume (left - 512 * k) cs
  first_read c left k cs two lt some_left e le =
      let at : 512 * (160 + (c - 2) * 8) ≡ place c = omega arith in
      rw
        (
          some_left,
          e,
          cluster_to_lba-image c two (omega arith),
          gather-held (160 + (c - 2) * 8) k (omega arith),
          at,
        )
        refl

  -- A read that ends in the cluster.
  last_read :
      (c left : ℕ) (cs : List ℕ)
      → 2 ≤ c
      → c < 8172
      → (left == 0) ≡ false
      → left ≤ 4096
      → take left (file_bytes f image_volume left (c ∷ cs)) ≡ slice b (place c) left
  last_read c left cs two lt some_left few =
      let k = (left + 511) / 512 in
      let xs = slice b (place c) (512 * k) in
      let rest = file_bytes f image_volume (left - 512 * k) cs in
      let long : left ≤ length xs =
        rw (length-bytes_at (λ i. b (place c + i)) (512 * k)) (part_covers left) in
      let over : 512 * k ≡ left + (512 * k - left) = omega (arith, part_covers left) in
      ap (take left)
        (first_read c left k cs two lt some_left (sectors_for_part left few) (part_fits left few))
      ∙ take-append_left left xs rest long
      ∙ ap (λ m. take left (slice b (place c) m)) over
      ∙ take-slice b (place c) left (512 * k - left)

  -- `k` is the number of sectors of a cluster: a number, so that no list of its bytes is computed.
  module _ (k : ℕ) (e : k ≡ 8) where
    whole_read :
        (c more : ℕ) (cs : List ℕ)
        → 2 ≤ c
        → c < 8172
        → 0 < more
        → 512 * k + more + 511 < u32_mod
        → take (512 * k + more) (file_bytes f image_volume (512 * k + more) (c ∷ cs))
          ≡ slice b (place c) (512 * k) ++ take more (file_bytes f image_volume more cs)
    whole_read c more cs two lt some_more small =
        let xs = slice b (place c) (512 * k) in
        let len : length xs ≡ 512 * k = length-bytes_at (λ i. b (place c + i)) (512 * k) in
        let left_over : 512 * k + more - 512 * k ≡ more = omega arith in
        let some_left : (512 * k + more == 0) ≡ false = ≢→== _ 0 (omega arith) in
        let all : sectors_for image_volume (512 * k + more) ≡ k =
          sectors_for_all (512 * k + more) (omega arith) small ∙ sym e in
        ap (take (512 * k + more)) (
          first_read c (512 * k + more) k cs two lt some_left all (omega arith)
          ∙ ap (λ i. xs ++ file_bytes f image_volume i cs) left_over)
        ∙ ap (λ i. take (i + more) (xs ++ file_bytes f image_volume more cs)) (sym len)
        ∙ take-append_right more xs (file_bytes f image_volume more cs)

    chain_read :
        (c n left : ℕ)
        → 2 ≤ c
        → c + n ≤ 8172
        → left ≤ n * 4096
        → left + 511 < u32_mod
        → take left (file_bytes f image_volume left (range c n)) ≡ slice b (place c) left
    chain_read c zero left two room le small =
        let none_left : left ≡ 0 = omega arith in rw none_left refl
    chain_read c (suc n) left two room le small = elim (Bool-cases (left == 0)) [
      | inl none_left ↦ let z : left ≡ 0 = (==_iff left 0).0 none_left in rw z refl
      | inr some_left ↦ elim (Bool-cases (ltb 4096 left)) [
        | inr few ↦
            last_read c left (range (c + 1) n) two (omega arith) some_left (ltb→le 4096 left few)
        | inl many ↦
            let lt = ltb→lt 4096 left many in
            let more = left - 512 * k in
            let left_is : left ≡ 512 * k + more = omega (arith, lt, e) in
            let next : place (c + 1) ≡ place c + 512 * k = omega (arith, e) in
            ap (λ i. take i (file_bytes f image_volume i (range c (suc n)))) left_is
            ∙ whole_read c more (range (c + 1) n) two (omega arith) (omega (arith, lt, e))
                (omega (arith, left_is, small))
            ∙ ap (λ l. slice b (place c) (512 * k) ++ l)
                (chain_read (c + 1) n more (omega arith) (omega arith) (omega (arith, e, le))
                    (omega (arith, small))
                  ∙ ap (λ p. slice b p more) next)
            ∙ sym (slice-add b (place c) (512 * k) more)
            ∙ ap (slice b (place c)) (sym left_is)
      ]
    ]

  -- What the driver reads of a file is what stands in the image.
  pub file_bytes-held :
      (c n left : ℕ)
      → 2 ≤ c
      → c + n ≤ 8172
      → left ≤ n * 4096
      → left + 511 < u32_mod
      → take left (file_bytes f image_volume left (range c n)) ≡ slice b (place c) left
  file_bytes-held = chain_read 8 refl

-- The bytes of the host's file, read off the memory.
pub slice-stored :
    (m : Memory) (n : ℕ) (xs : List ℕ)
    → n ≤ length xs
    → ((k : ℕ) → k < n → m k ≡ get_or xs k 0)
    → bytes_at m n ≡ take n xs
slice-stored m zero xs le h = refl
slice-stored m (suc n) [] le h = absurd (omega arith)
slice-stored m (suc n) (x ∷ xs) le h = rw (h 0 (omega arith)) (
    ap (λ l. x ∷ l)
      (slice-stored (λ k. m (suc k)) n xs (omega arith) (λ k lt. h (suc k) (omega arith))))
