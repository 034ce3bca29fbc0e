-- ===== src/Fat/Dir/Slots.antt =====
-- The changes to one sector of a directory, on the list of its sixteen entries.
use mathlib.Core.Option
use ring_os.Prelude.{
  ℕ, zero, suc, ◌*◌, ◌≤◌, ◌≡◌, refl, sym, ap, Bool, ◌==◌, ◌&&◌, ◌||◌, not, set, sub_ℕ, is_zero,
  true, false, Option, none, some, List, [], ◌∷◌, ◌++◌, arith, if◌then◌else◌, length, take, drop,
  get_or, get_or-take, length-append, length-take, length-drop, length-set, Option-cases,
  Bool-cases, inl, inr,
}
use ring_os.CString.{memcmp}
use ring_os.Fat.Dir.{Memory, bytes_at, new_entry, is_unused, fill_slot, mark_slot}

-- The first `n` entries of a sector.
abbrev pub slots : ℕ → List ℕ → List (List ℕ)
slots zero buffer = []
slots (suc n) buffer = take 32 buffer ∷ slots n (drop 32 buffer)

-- Change the first entry to which `f` applies.
abbrev pub edit_first : (List ℕ → Option (List ℕ)) → List (List ℕ) → Option (List (List ℕ))
edit_first f [] = none
edit_first f (x ∷ xs) = elim (f x) [
  | some y ↦ some (y ∷ xs)
  | none ↦ elim (edit_first f xs) [ none ↦ none | some ys ↦ some (x ∷ ys) ]
]

take-append_length : (xs ys : List ℕ) → take (length xs) (xs ++ ys) ≡ xs
take-append_length [] ys = refl
take-append_length (x ∷ xs) ys = ap (λ l. x ∷ l) (take-append_length xs ys)

drop-append_length : (xs ys : List ℕ) → drop (length xs) (xs ++ ys) ≡ ys
drop-append_length [] ys = refl
drop-append_length (x ∷ xs) ys = drop-append_length xs ys

-- Two entries and what follows them, where the first has 32 bytes.
slots-append : (n : ℕ) (x r : List ℕ) → length x ≡ 32 → slots (suc n) (x ++ r) ≡ x ∷ slots n r
slots-append n x r len =
    let t = take-append_length x r in
    let d = drop-append_length x r in rw (rw len at t, rw len at d)

pub length-bytes_at : (m : Memory) (n : ℕ) → length (bytes_at m n) ≡ n
length-bytes_at m zero = refl
length-bytes_at m (suc n) = ap suc (length-bytes_at (λ k. m (suc k)) n)

pub length-new_entry : (m : Memory) (attributes : ℕ) → length (new_entry m attributes) ≡ 32
unfolding new_entry
length-new_entry m attributes = refl

-- The entry is not in use: its first byte is 0 or 0xE5.
abbrev pub is_vacant : List ℕ → Bool
is_vacant x = get_or x 0 0 == 0 || get_or x 0 0 == 0xE5

-- A new entry in the place of one that is not in use.
abbrev pub fill : List ℕ → List ℕ → Option (List ℕ)
fill entry x = if is_vacant x then some entry else none

abbrev pub same_bytes : List ℕ → List ℕ → Bool
same_bytes [] [] = true
same_bytes (a ∷ xs) (b ∷ ys) = a == b && same_bytes xs ys
same_bytes xs ys = false

-- The mark 0xE5 on an entry that is in use and begins with the name.
abbrev pub mark : List ℕ → List ℕ → Option (List ℕ)
mark name x =
    if is_vacant x then none else if same_bytes (take 11 x) name then some (set x 0 0xE5) else none

-- On every sector `pick` is the change `f` of the first of the sixteen entries that it applies to.
abbrev pub Acts : (List ℕ → Option (List ℕ)) → (List ℕ → Option (List ℕ)) → Type 0
Acts pick f =
    (buffer : List ℕ)
    → length buffer ≡ 512
    → Option.map (slots 16) (pick buffer) ≡ edit_first f (slots 16 buffer)

-- `fill_slot` puts the entry in the place of the first unused one.
module _ (entry : List ℕ) (len : length entry ≡ 32) where
  first_byte : (b : List ℕ) → get_or (take 32 b) 0 0 ≡ get_or b 0 0
  first_byte b = get_or-take b 32 0 0 (omega arith)

  fill_free : (b : List ℕ) → is_unused b ≡ true → fill entry (take 32 b) ≡ some entry
  fill_free b h = rw (first_byte b, h)

  fill_used : (b : List ℕ) → is_unused b ≡ false → fill entry (take 32 b) ≡ none
  fill_used b h = rw (first_byte b, h)

  -- Seen as a list of entries, a sector from which `fill_slot` returns has the new entry in place of
  -- the first unused one and the others as they were; it returns nothing if none is unused.
  pub slots-fill_slot :
      (n : ℕ) (buffer : List ℕ)
      → length buffer ≡ 32 * n
      → Option.map (slots n) (fill_slot entry n buffer) ≡ edit_first (fill entry) (slots n buffer)
  unfolding fill_slot
  slots-fill_slot zero buffer h = refl
  slots-fill_slot (suc n) buffer h =
      let rest = slots-fill_slot n (drop 32 buffer) (omega (arith, length-drop 32 buffer)) in
      let len32 : length (take 32 buffer) ≡ 32 = omega (arith, length-take 32 buffer) in
      elim (Bool-cases (is_unused buffer)) [
        | inl free ↦
            rw (fill_free buffer free, free, edit_first, fill_slot)
              (ap some (slots-append n entry (drop 32 buffer) len))
        | inr used ↦ elim (Option-cases (fill_slot entry n (drop 32 buffer))) [
          | inl e ↦ rw (fill_used buffer used, used, e, edit_first, fill_slot) (rw (← rest, e))
          | inr (b, e) ↦
              rw (fill_used buffer used, used, e, edit_first, fill_slot)
                (rw (← rest, e) (ap some (slots-append n (take 32 buffer) b len32)))
        ]
      ]

-- The comparison of two blocks, up to a length that both have.
memcmp-same_bytes :
    (n : ℕ) (p q : List ℕ)
    → n ≤ length p
    → n ≡ length q
    → (elim (memcmp p q n) [ none ↦ false | some z ↦ is_zero z ]) ≡ same_bytes (take n p) q
unfolding memcmp
memcmp-same_bytes zero p [] hp hq = refl
memcmp-same_bytes zero p (b ∷ q) hp hq = absurd (omega arith)
memcmp-same_bytes (suc n) [] q hp hq = absurd (omega arith)
memcmp-same_bytes (suc n) (a ∷ p) [] hp hq = absurd (omega arith)
memcmp-same_bytes (suc n) (a ∷ p) (b ∷ q) hp hq = elim (Bool-cases (a == b)) [
  | inl e ↦ rw e (memcmp-same_bytes n p q (omega arith) (omega arith))
  | inr e ↦ let differs : is_zero (sub_ℕ a b) ≡ false = ground arith in rw e differs
]

take-take : (n m : ℕ) (xs : List ℕ) → n ≤ m → take n (take m xs) ≡ take n xs
take-take zero m xs h = refl
take-take (suc n) zero xs h = absurd (omega arith)
take-take (suc n) (suc m) [] h = refl
take-take (suc n) (suc m) (x ∷ xs) h = ap (λ l. x ∷ l) (take-take n m xs (omega arith))

-- The first of the entries is marked.
slots-set :
    (n : ℕ) (buffer : List ℕ)
    → 32 ≤ length buffer
    → slots (suc n) (set buffer 0 0xE5) ≡ set (take 32 buffer) 0 0xE5 ∷ slots n (drop 32 buffer)
slots-set n [] h = absurd (omega arith)
slots-set n (c ∷ buffer) h = refl

-- `mark_slot` marks the first entry that is in use and has the name.
module _ (name : List ℕ) (len : length name ≡ 11) where
  name_test : (b : List ℕ) → same_bytes (take 11 (take 32 b)) name ≡ same_bytes (take 11 b) name
  name_test b = ap (λ x. same_bytes x name) (take-take 11 32 b (omega arith))

  -- The tests of `mark_slot`, on the entry alone.
  mark_lem :
      (b : List ℕ)
      → 32 ≤ length b
      → (found : Bool) × ((not (is_unused b)
            && (elim (memcmp b name 11) [ none ↦ false | some z ↦ is_zero z ]))
          ≡ found)
        × (mark name (take 32 b) ≡ (if found then some (set (take 32 b) 0 0xE5) else none))
  mark_lem b room =
      let first = get_or-take b 32 0 0 (omega arith) in
      let compared = memcmp-same_bytes 11 b name (omega arith) (sym len) in
      elim (Bool-cases (is_unused b)) [
        | inl free ↦ (false, rw free refl, rw (first, free) refl)
        | inr used ↦ elim (Bool-cases (same_bytes (take 11 b) name)) [
          | inl e ↦ (true, rw (used, compared, e) refl, rw (first, used, name_test b, e) refl)
          | inr e ↦ (false, rw (used, compared, e) refl, rw (first, used, name_test b, e) refl)
        ]
      ]

  -- Seen as a list of entries, a sector from which `mark_slot` returns has the mark on the first
  -- entry that is in use and has the name; it returns nothing if there is none.
  pub slots-mark_slot :
      (n : ℕ) (buffer : List ℕ)
      → length buffer ≡ 32 * n
      → Option.map (slots n) (mark_slot name n buffer) ≡ edit_first (mark name) (slots n buffer)
  unfolding mark_slot
  slots-mark_slot zero buffer h = refl
  slots-mark_slot (suc n) buffer h =
      let rest = slots-mark_slot n (drop 32 buffer) (omega (arith, length-drop 32 buffer)) in
      let len32 : length (take 32 buffer) ≡ 32 = omega (arith, length-take 32 buffer) in
      let (found, test, marked) = mark_lem buffer (omega arith) in
      elim (Bool-cases found) [
        | inl hit ↦
            rw (test, marked, hit, edit_first, mark_slot)
              (ap some (slots-set n buffer (omega arith)))
        | inr missed ↦ elim (Option-cases (mark_slot name n (drop 32 buffer))) [
          | inl e ↦ rw (test, marked, missed, e, edit_first, mark_slot) (rw (← rest, e))
          | inr (b, e) ↦
              rw (test, marked, missed, e, edit_first, mark_slot)
                (rw (← rest, e) (ap some (slots-append n (take 32 buffer) b len32)))
        ]
      ]

pub length-fill_slot :
    (entry : List ℕ) (n : ℕ) (buffer b : List ℕ)
    → length entry ≡ 32
    → length buffer ≡ 32 * n
    → fill_slot entry n buffer ≡ some b
    → length b ≡ length buffer
unfolding fill_slot
length-fill_slot entry zero buffer b le lb h = cc
length-fill_slot entry (suc n) buffer b le lb h =
    elim (Option-cases (fill_slot entry n (drop 32 buffer))) [
      | inl e ↦ ground (arith, length-append entry (drop 32 buffer), length-drop 32 buffer)
      | inr (r, e) ↦ ground (
        arith,
        length-append entry (drop 32 buffer),
        length-drop 32 buffer,
        length-append (take 32 buffer) r,
        length-take 32 buffer,
        length-fill_slot entry n (drop 32 buffer) r le,
      )
    ]

pub length-mark_slot :
    (name : List ℕ) (n : ℕ) (buffer b : List ℕ)
    → length buffer ≡ 32 * n
    → mark_slot name n buffer ≡ some b
    → length b ≡ length buffer
unfolding mark_slot
length-mark_slot name zero buffer b lb h = cc
length-mark_slot name (suc n) buffer b lb h =
    elim (Option-cases (mark_slot name n (drop 32 buffer))) [
      | inl e ↦ ground (arith, length-set buffer 0 0xE5)
      | inr (r, e) ↦ ground (
        arith,
        length-set buffer 0 0xE5,
        length-drop 32 buffer,
        length-append (take 32 buffer) r,
        length-take 32 buffer,
        length-mark_slot name n (drop 32 buffer) r,
      )
    ]
