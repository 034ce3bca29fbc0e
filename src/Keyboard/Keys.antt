-- ===== src/Keyboard/Keys.antt =====
-- What the keyboard driver makes of scancodes.
use ring_os.Prelude.{
  if◌then◌else◌, leb, ◌-◌, ltb→lt, ==_iff, length, get_or, Bool-cases, ◌/◌, ◌%◌, ℕ, zero, suc, ◌<◌,
  ◌≡◌, ◌≢◌, refl, Bool, true, false, ◌&&◌, Option, none, some, List, [], ◌∷◌, inl, inr,
  Option-cases, arith, ltb, ◌==◌,
}
use ring_os.Keyboard.{handle_scancode, scancode_to_ascii, wait_ready, read, Keyboard, arrow}

-- A test on all codes below a bound, by evaluation.
passes : (ℕ → Bool) → ℕ → Bool
passes test zero = true
passes test (suc top) = passes test top && test top

test_of_passes :
    (test : ℕ → Bool) (top code : ℕ) → passes test top ≡ true → code < top → test code ≡ true
unfolding passes
test_of_passes test zero code all lt = absurd (omega arith)
test_of_passes test (suc top) code all lt = ground (arith, test_of_passes test top code)

-- Behind the prefix 0xE0 `keyboard_read` takes one more code, if it is not the prefix again, and
-- returns the character of an arrow key, or 0 for every other code; shift and caps lock stay.
pub read_extended :
    (scancode : ℕ) (codes : List ℕ) (k : Keyboard)
    → scancode ≢ 0xE0
    → read k (0xE0 ∷ scancode ∷ codes)
      ≡ some (some (record k { extended_code = false }, arrow scancode, codes))
unfolding read
read_extended scancode codes k ne = ground arith

-- The wait for the controller ends when one of the statuses shows that it is free.
pub wait_ready_lem :
    (statuses : List ℕ) (i : ℕ)
    → i < length statuses
    → get_or statuses i 0 / 2 % 2 ≡ 0
    → (more : List ℕ) × (wait_ready statuses ≡ some more)
unfolding wait_ready
wait_ready_lem [] i lt h = absurd (omega arith)
wait_ready_lem (s ∷ more) zero lt h = (more, rw h refl)
wait_ready_lem (s ∷ more) (suc i) lt h =
    let (rest, run) = wait_ready_lem more i (omega arith) h in
    elim (Bool-cases (s / 2 % 2 == 0)) [
      | inl free ↦ (more, rw free refl)
      | inr busy ↦ (rest, rw busy run)
    ]

abbrev pub is_lower : ℕ → Bool
is_lower c = leb b'a' c && leb c b'z'

-- The character of a letter key: upper case when one of shift and caps lock is on, but not both.
abbrev pub letter_case : Bool → Bool → ℕ → ℕ
letter_case true true c = c
letter_case true false c = c - 32
letter_case false true c = c - 32
letter_case false false c = c

-- What the first table has for a make code; 0 behind its end, and for the other scancodes.
abbrev pub plain : ℕ → ℕ
plain scancode = if ltb scancode 128 then get_or scancode_to_ascii scancode 0 else 0

is_good : Bool → Bool → ℕ → Option (Keyboard × ℕ) → Bool
is_good shift caps scancode none = false
is_good shift caps scancode (some r) =
    ltb r.1 128
    && (if is_lower (plain scancode) then r.1 == letter_case shift caps (plain scancode) else true)

abbrev keyboard : Bool → Bool → Bool → Keyboard
keyboard shift caps extended = record {
  shift_pressed = shift;
  caps_lock = caps;
  extended_code = extended;
}

all_good :
    (shift caps e : Bool)
    → passes (λ s. is_good shift caps s (handle_scancode s (keyboard shift caps e))) 256 ≡ true
unfolding passes is_good handle_scancode
all_good true true e = refl
all_good true false e = refl
all_good false true e = refl
all_good false false e = refl

-- On every scancode `handle_scancode` reads nothing behind the end of its tables, and returns 0 or
-- an ASCII character. For the key of a letter (one that is lower case in the first table) this is
-- the letter in upper case exactly when one of shift and caps lock is on, but not both, and in lower
-- case otherwise.
pub handle_scancode_lem :
    (scancode : ℕ) (k : Keyboard)
    → scancode < 256
    → (k' : Keyboard) × (c : ℕ) × (handle_scancode scancode k ≡ some (k', c))
      × (c < 128)
      × (c ≡ (
          if is_lower (plain scancode)
          then letter_case k.shift_pressed k.caps_lock (plain scancode)
          else c))
unfolding is_good
handle_scancode_lem scancode k lt =
    let shift = k.shift_pressed in
    let caps = k.caps_lock in
    let good =
      test_of_passes (λ s. is_good shift caps s (handle_scancode s k)) 256 scancode
        (all_good shift caps k.extended_code) lt in
    elim (Option-cases (handle_scancode scancode k)) [
      | inl e ↦ absurd (not_good (rw e at good))
      | inr ((k', c), e) ↦
          let (small, letter) = both _ _ (rw e at good) in
          (k', c, e, ltb→lt c 128 small, case_of (is_lower (plain scancode)) c _ letter)
    ]
  where
    not_good : false ≡ true → ⊥
    not_good e = cc

    both : (a b : Bool) → (a && b) ≡ true → (a ≡ true) × (b ≡ true)
    both true b e = (refl, e)
    both false b e = absurd (cc)

    case_of : (b : Bool) (c d : ℕ) → (if b then c == d else true) ≡ true → c ≡ (if b then d else c)
    case_of true c d h = (==_iff c d).0 h
    case_of false c d h = refl
