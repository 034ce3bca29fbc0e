-- ===== src/Shell/Typing.antt =====
-- The command line stays inside its array, and a line that was typed is the command that runs.
use mathlib.Core.Option
use ring_os.Prelude.{
  ℕ, zero, suc, ◌+◌, ◌-◌, ◌<◌, ◌≡◌, refl, ap, ◌∙◌, ◌&&◌, not, Option, none, some, List, [], ◌∷◌,
  ◌++◌, arith, ltb, ◌==◌, length, length-append, Bool-cases, inl, inr,
}
use ring_os.CString.{store}
use ring_os.Vga.{putchar}
use ring_os.Shell.{Shell, Command, dispatch, find_space, process_command, handle_keypress, run}

pub record IsValid (sh : Shell) : Type 0 where
  pub size : length sh.cmd_buffer ≡ 256
  pub index : sh.cmd_index < 256

store_inside :
    (p : List ℕ) (i v : ℕ)
    → i < length p
    → (q : List ℕ) × (store p i v ≡ some q) × (length q ≡ length p)
unfolding store
store_inside [] i v h = absurd (omega arith)
store_inside (x ∷ p) zero v h = (v ∷ p, refl, refl)
store_inside (x ∷ p) (suc i) v h =
    let (q, run, len) = store_inside p i v (omega arith) in (x ∷ q, rw run refl, ap suc len)

-- The two parts and the space are as long as the line.
abbrev Parts : ℕ → Option (List ℕ × List ℕ) → Type 0
Parts n none = Unit
Parts n (some r) = length r.0 + suc (length r.1) ≡ n

find_space-Parts : (n : ℕ) (b : List ℕ) → Parts (length b) (find_space n b)
unfolding find_space
find_space-Parts zero b = tt
find_space-Parts (suc n) [] = tt
find_space-Parts (suc n) (c ∷ b) =
    let longer : (o : Option (List ℕ × List ℕ))
        → Parts (length b) o
        → Parts (suc (length b)) (Option.map (λ (r : List ℕ × List ℕ). (c ∷ r.0, r.1)) o) =
      longer_parts c (length b) in
    elim (Bool-cases (c == 32)) [
      | inl e ↦ rw e (omega arith)
      | inr e ↦ rw e (longer (find_space n b) (find_space-Parts n b))
    ]
  where
    longer_parts :
        (c n : ℕ) (o : Option (List ℕ × List ℕ))
        → Parts n o
        → Parts (suc n) (Option.map (λ (r : List ℕ × List ℕ). (c ∷ r.0, r.1)) o)
    longer_parts c n none h = tt
    longer_parts c n (some r) h = omega arith

pub process_command_step :
    (sh : Shell) (b : List ℕ)
    → store sh.cmd_buffer sh.cmd_index 0 ≡ some b
    → process_command sh
      ≡ some (elim (find_space sh.cmd_index b) [
        | none ↦ (record sh { cmd_buffer = b; cmd_index = 0 }, dispatch b none sh.cmd_index)
        | some r ↦ (
          record sh { cmd_buffer = r.0 ++ 0 ∷ r.1; cmd_index = 0 },
          dispatch (r.0 ++ 0 ∷ r.1) (some r.1) sh.cmd_index,
        )
      ])
unfolding process_command
process_command_step sh b e = rw e refl

process_command-IsValid :
    (sh : Shell) → IsValid sh → (r : Shell × Command) × (process_command sh ≡ some r) × IsValid r.0
process_command-IsValid sh v =
    let (b, stored, len) =
      store_inside sh.cmd_buffer sh.cmd_index 0 (omega (arith, v.size, v.index)) in
    (
      _,
      process_command_step sh b stored,
      split (find_space sh.cmd_index b) b (len ∙ v.size) (find_space-Parts sh.cmd_index b),
    )
  where
    split :
        (o : Option (List ℕ × List ℕ)) (b : List ℕ)
        → length b ≡ 256
        → Parts (length b) o
        → let r : Shell × Command = elim o [
          | none ↦ (record sh { cmd_buffer = b; cmd_index = 0 }, dispatch b none sh.cmd_index)
          | some r ↦ (
            record sh { cmd_buffer = r.0 ++ 0 ∷ r.1; cmd_index = 0 },
            dispatch (r.0 ++ 0 ∷ r.1) (some r.1) sh.cmd_index,
          )
        ] in
          IsValid r.0
    split none b len parts = record { size = len; index = omega arith }
    split (some r) b len parts = record {
      size = length-append r.0 (0 ∷ r.1) ∙ parts ∙ len;
      index = omega arith;
    }

-- From a command line inside its array `shell_handle_keypress` of any character writes to no byte
-- behind the array, and leaves the line inside the array.
pub handle_keypress-IsValid :
    (c : ℕ) (sh : Shell)
    → IsValid sh
    → (r : Shell × Option Command) × (handle_keypress c sh ≡ some r) × IsValid r.0
unfolding handle_keypress
handle_keypress-IsValid c sh v = elim (Bool-cases (c == b'\n')) [
  | inl e ↦
      let shown : Shell = record sh { screen = putchar b'\n' sh.screen } in
      let (r, run, after) =
        process_command-IsValid shown (record { size = v.size; index = v.index }) in
      ((r.0, some r.1), rw (e, run) refl, after)
  | inr e ↦ elim (Bool-cases (c == 8 && ltb 0 sh.cmd_index)) [
    | inl back ↦ (
      (record sh { cmd_index = sh.cmd_index - 1; screen = putchar 8 sh.screen }, none),
      rw (e, back) refl,
      record { size = v.size; index = omega (arith, v.index) },
    )
    | inr kept ↦ elim (Bool-cases (not (c == 0) && ltb sh.cmd_index 255 && not (c == 8))) [
      | inl typed ↦
          let room : sh.cmd_index < 255 = ground arith in
          let (b, stored, len) =
            store_inside sh.cmd_buffer sh.cmd_index c (omega (arith, v.size, v.index)) in
          (
            (
              record { cmd_buffer = b; cmd_index = sh.cmd_index + 1; screen = putchar c sh.screen },
              none,
            ),
            rw (e, kept, typed, stored) refl,
            record { size = len ∙ v.size; index = omega arith },
          )
      | inr ignored ↦ ((sh, none), rw (e, kept, ignored) refl, v)
    ]
  ]
]
