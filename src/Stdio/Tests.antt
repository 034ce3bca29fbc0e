-- ===== src/Stdio/Tests.antt =====
-- The least `int` but one, in base 10.
use ring_os.Prelude.{
  refl, ℕ, ◌≡◌, ◌≤◌, ◌^◌, ◌-◌, some, List, [], ◌∷◌, ◌++◌, arith, length, Bool, ◌&&◌, ◌==◌, leb,
  if◌then◌else◌,
}
use ring_os.Stdio.{print_number}
use ring_os.Stdio.Numbers.{value_in, AllDigits, print_number_lem}

print_number_example :
    let minus : Bool = 10 == 10 && leb (2 ^ 31) 2147483649 in
    (text : List ℕ) × (print_number 2147483649 10
      ≡ some ((if minus then b'-' ∷ [] else []) ++ text))
    × (value_in 10 text ≡ (if minus then 2 ^ 32 - 2147483649 else 2147483649))
    × AllDigits 10 text
    × (1 ≤ length text)
    × (length text ≤ 32)
print_number_example = print_number_lem 2147483649 10 (omega arith) (omega arith) (omega arith) refl
