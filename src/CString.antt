-- ===== src/CString.antt =====
-- lib/string.c and lib/stdint.c: the functions on C strings and byte arrays.
-- A pointer is the list of the bytes from it to the end of its object; `none` is an access
-- behind that end. Objects that a call both reads and writes do not overlap.
pub mod Compare
pub mod Copy
pub mod Digits
use package.ring_os.Prelude.{
  ℕ, zero, suc, ◌+◌, ◌-◌, ◌*◌, ◌/◌, ◌%◌, Option, none, some, List, [], ◌∷◌, ◌&&◌, leb, ltb, ◌==◌,
  if◌then◌else◌, length, ℤ, pos, negsuc, sub_ℕ, is_zero, Bool, true, false, ◌++◌,
}
use mathlib.Core.Option

infixl 5 ◌>>=◌
abbrev pub ◌>>=◌ {ℓ κ} : {A : Type ℓ} {B : Type κ} → Option A → (A → Option B) → Option B
none >>= f = none
some a >>= f = f a

-- `*p = v` beside the bytes that follow.
abbrev pub cons? : ℕ → Option (List ℕ) → Option (List ℕ)
cons? v none = none
cons? v (some p) = some (v ∷ p)

unfoldable pub strlen : List ℕ → Option ℕ
strlen [] = none
strlen (c ∷ s) = if c == 0 then some 0 else Option.map (λ (n : ℕ). n + 1) (strlen s)

unfoldable pub memset : List ℕ → ℕ → ℕ → Option (List ℕ)
memset p value zero = some p
memset [] value (suc num) = none
memset (_ ∷ p) value (suc num) = cons? (value % 256) (memset p value num)

unfoldable pub memcpy : List ℕ → List ℕ → ℕ → Option (List ℕ)
memcpy d s zero = some d
memcpy [] s (suc num) = none
memcpy (_ ∷ d) [] (suc num) = none
memcpy (_ ∷ d) (c ∷ s) (suc num) = cons? c (memcpy d s num)

unfoldable pub memcmp : List ℕ → List ℕ → ℕ → Option ℤ
memcmp p1 p2 zero = some (pos 0)
memcmp [] p2 (suc n) = none
memcmp (a ∷ p1) [] (suc n) = none
memcmp (a ∷ p1) (b ∷ p2) (suc n) = if a == b then memcmp p1 p2 n else some (sub_ℕ a b)

unfoldable pub strcmp : List ℕ → List ℕ → Option ℤ
strcmp [] s2 = none
strcmp (a ∷ s1) [] = none
strcmp (a ∷ s1) (b ∷ s2) =
    if a == 0 then some (sub_ℕ a b) else if a == b then strcmp s1 s2 else some (sub_ℕ a b)

-- `while ((*d++ = *src++));`: the terminator is copied too.
unfoldable pub strcpy : List ℕ → List ℕ → Option (List ℕ)
strcpy [] src = none
strcpy (_ ∷ d) [] = none
strcpy (_ ∷ d) (c ∷ src) = let rest = strcpy d src in cons? c (if c == 0 then some d else rest)

-- `dest + strlen(dest)` is the pointer to the terminator.
unfoldable pub strcat : List ℕ → List ℕ → Option (List ℕ)
unfolding strcpy
strcat [] src = none
strcat (c ∷ d) src = if c == 0 then strcpy (c ∷ d) src else cons? c (strcat d src)

-- `char toupper(char c)`
unfoldable pub toupper : ℕ → ℕ
toupper c = if leb b'a' c && leb c b'z' then c - 32 else c

-- The loop of `strncat`, from the terminator of `dest` on, with the final `*d = '\0'`.
unfoldable pub strncat_loop : List ℕ → List ℕ → ℕ → Option (List ℕ)
strncat_loop [] src n = none
strncat_loop (_ ∷ d) src zero = some (0 ∷ d)
strncat_loop (_ ∷ d) [] (suc n) = none
strncat_loop (_ ∷ d) (c ∷ src) (suc n) =
    let rest = strncat_loop d src n in if c == 0 then some (0 ∷ d) else cons? c rest

unfoldable pub strncat : List ℕ → List ℕ → ℕ → Option (List ℕ)
unfolding strncat_loop
strncat [] src n = none
strncat (c ∷ d) src n = if c == 0 then strncat_loop (c ∷ d) src n else cons? c (strncat d src n)

-- `str[i] = v`
unfoldable pub store : List ℕ → ℕ → ℕ → Option (List ℕ)
store [] i v = none
store (_ ∷ p) zero v = some (v ∷ p)
store (x ∷ p) (suc i) v = cons? x (store p i v)

-- The loop of `itoa`, at `i` = `left` - 1.
unfoldable pub itoa_loop : ℕ → ℕ → List ℕ → Option (List ℕ)
unfolding store
itoa_loop zero num str = some str
itoa_loop (suc i) num str =
    store str i (if ltb 0 num then 48 + num % 10 else 32) >>= itoa_loop i (num / 10)

-- `num > 0` fails for every negative number, so these are printed as 0 is.
unfoldable pub itoa : ℤ → List ℕ → ℕ → Option (List ℕ)
unfolding itoa_loop store
itoa (pos num) str width = store str width 0 >>= itoa_loop width num
itoa (negsuc k) str width = store str width 0 >>= itoa_loop width 0

-- The digit loop of `uint32_t_to_str`. `rev` is the part of the array written so far, last byte
-- first; the array has 11 bytes. Each round divides by ten, so that eleven rounds are enough.
unfoldable pub digits_loop : ℕ → ℕ → List ℕ → Option (List ℕ)
digits_loop zero num rev = none
digits_loop (suc fuel) num rev =
    let next = digits_loop fuel (num / 10) ((48 + num % 10) ∷ rev) in
    if num == 0 then some rev else if ltb (length rev) 11 then next else none

-- Write `cs` and a terminator from the pointer on.
unfoldable pub store_text : List ℕ → List ℕ → Option (List ℕ)
store_text [] cs = none
store_text (_ ∷ d) [] = some (0 ∷ d)
store_text (_ ∷ d) (c ∷ cs) = cons? c (store_text d cs)

unfoldable pub uint32_t_to_str : ℕ → List ℕ → Option (List ℕ)
uint32_t_to_str num str =
    if num == 0 then store_text str (48 ∷ []) else (digits_loop 11 num [] >>= store_text str)

-- `strcmp(text, "...") == 0`
abbrev pub same_text : List ℕ → List ℕ → Bool
same_text text literal = elim (strcmp text (literal ++ 0 ∷ [])) [
  | none ↦ false
  | some z ↦ is_zero z
]
