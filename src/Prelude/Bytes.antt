-- ===== src/Prelude/Bytes.antt =====
-- Machine words, signed integers, and loops over a counted range.
use Prim.Native.Nat.{ℕ, zero, suc, ◌+◌, ◌-◌, ◌^◌, ◌≤◌, ◌<◌}
use mathlib.Core.Path.{◌≡◌}
use mathlib.Core.Bool.{Bool, true, false}
use native.Mathlib.Omega.{arith}
use ring_os.Prelude.Tests.{leb, if◌then◌else◌}

-- The least number that does not fit `uint32_t`.
abbrev pub u32_mod : ℕ
u32_mod = 2 ^ 32

-- A counted loop: `left` rounds of `step`, the first with counter `k`.
pub for_range {ℓ} : {S : Type ℓ} → ℕ → ℕ → (ℕ → S → S) → S → S
for_range zero k step x = x
for_range (suc left) k step x = for_range left (k + 1) step (step k x)

-- What each round of the range keeps holds behind the last one.
pub for_range_inv {ℓ κ} :
    {S : Type ℓ} (Holds : ℕ → S → Type κ) (step : ℕ → S → S) (left k : ℕ)
    → ((c : ℕ) (y : S) → k ≤ c → c < k + left → Holds c y → Holds (c + 1) (step c y))
    → (last : ℕ) (x : S) → k + left ≡ last
    → Holds k x
    → Holds last (for_range left k step x)
unfolding for_range
for_range_inv Holds step zero k round last x e h =
    let same : k ≡ last = omega arith in rw (← same) h
for_range_inv Holds step (suc left) k round last x e h =
    for_range_inv Holds step left (k + 1) (λ c y low high. round c y (omega arith) (omega arith))
      last (step k x) (omega arith) (round k x (omega arith) (omega arith) h)

-- `int`, where the code looks at signs. `negsuc n` is -(n + 1).
pub data ℤ : Type 0 where
  pos : ℕ → ℤ
  negsuc : ℕ → ℤ

-- a - b, as an integer.
abbrev pub sub_ℕ : ℕ → ℕ → ℤ
sub_ℕ a b = if leb b a then pos (a - b) else negsuc (b - a - 1)

abbrev pub is_zero : ℤ → Bool
is_zero (pos zero) = true
is_zero (pos (suc n)) = false
is_zero (negsuc n) = false
