-- ===== src/CString/Copy.antt =====
-- What the copying functions leave in their destination.
use ring_os.Prelude.{
  ℕ, zero, suc, ◌+◌, ◌%◌, ◌≤◌, ◌<◌, ◌≡◌, refl, none, some, List, [], ◌∷◌, ◌++◌, arith, length, take,
  drop, replicate,
}
use ring_os.CString.{memset, memcpy, strcpy, strcat, toupper}
use ring_os.CString.Compare.{IsText}

-- `memcpy` into and from objects of at least `n` bytes replaces the first `n` and no other.
pub memcpy_lem :
    (n : ℕ) (d s : List ℕ)
    → n ≤ length d
    → n ≤ length s
    → memcpy d s n ≡ some (take n s ++ drop n d)
unfolding memcpy
memcpy_lem zero d s hd hs = refl
memcpy_lem (suc n) [] s hd hs = absurd (omega arith)
memcpy_lem (suc n) (x ∷ d) [] hd hs = absurd (omega arith)
memcpy_lem (suc n) (x ∷ d) (c ∷ s) hd hs = rw (memcpy_lem n d s (omega arith) (omega arith))

pub memset_lem :
    (n v : ℕ) (d : List ℕ) → n ≤ length d → memset d v n ≡ some (replicate n (v % 256) ++ drop n d)
unfolding memset
memset_lem zero v d h = refl
memset_lem (suc n) v [] h = absurd (omega arith)
memset_lem (suc n) v (x ∷ d) h = rw (memset_lem n v d (omega arith))

-- `strcpy` of a terminated text that fits into `dest` with its terminator writes both, and keeps
-- the bytes behind them.
pub strcpy_lem :
    (d a rest : List ℕ)
    → IsText a
    → length a < length d
    → strcpy d (a ++ 0 ∷ rest) ≡ some (a ++ 0 ∷ drop (length a + 1) d)
unfolding strcpy
strcpy_lem [] a rest t h = absurd (omega arith)
strcpy_lem (x ∷ d) [] rest t h = refl
strcpy_lem (x ∷ d) (c ∷ a) rest t h = ground (arith, strcpy_lem d a rest t.1)

-- `strcat` appends a text to the text in `dest` when both and a terminator fit; the bytes behind
-- the new terminator are kept.
pub strcat_lem :
    (a b d rest : List ℕ)
    → IsText a
    → IsText b
    → length b ≤ length d
    → strcat (a ++ 0 ∷ d) (b ++ 0 ∷ rest) ≡ some (a ++ b ++ 0 ∷ drop (length b) d)
unfolding strcat
strcat_lem [] b d rest ta tb h = ground (arith, strcpy_lem (0 ∷ d) b rest tb)
strcat_lem (c ∷ a) b d rest ta tb h = ground (arith, strcat_lem a b d rest ta.1 tb)

-- `strcpy` of a terminated text writes behind its destination if that has no room for the text and
-- its terminator.
pub strcpy_overrun :
    (d a rest : List ℕ) → IsText a → length d ≤ length a → strcpy d (a ++ 0 ∷ rest) ≡ none
unfolding strcpy
strcpy_overrun [] a rest t h = refl
strcpy_overrun (x ∷ d) [] rest t h = absurd (omega arith)
strcpy_overrun (x ∷ d) (c ∷ a) rest t h = ground (arith, strcpy_overrun d a rest t.1)

pub toupper_idem : (c : ℕ) → toupper (toupper c) ≡ toupper c
unfolding toupper
toupper_idem c = ground arith
