-- ===== src/Shell/Tests.antt =====
-- Lines that are typed at the prompt.
use ring_os.Prelude.{ℕ, ◌≡◌, refl, Option, some, List, [], ◌∷◌, ◌++◌, arith, replicate, ◌-◌}
use ring_os.CString.Compare.{is_text-IsText}
use ring_os.Vga.{Vga, putchar, writestr}
use ring_os.Shell.{Shell, Command, commands, handle_keypress, run}
use ring_os.Shell.Typing.{IsValid, handle_keypress-IsValid}
use ring_os.Shell.Line.{word_of, argument, unrecognised, Picks, shell, run_line}
use ring_os.Shell.Hex.{write_binary_args, to_hex}
use ring_os.Shell.Hex.Written.{write_binary_args-to_hex}

abbrev screen : Vga
screen = record { buffer = λ p. 0; color = 15; cursor_pos = 0; ports = [] }

abbrev start : Shell
start = shell (replicate 256 0) 0 screen

start-IsValid : IsValid start
start-IsValid = record { size = refl; index = omega arith }

handle_keypress-IsValid_example :
    (r : Shell × Option Command) × (handle_keypress b'l' start ≡ some r) × IsValid r.0
handle_keypress-IsValid_example = handle_keypress-IsValid b'l' start start-IsValid

-- `cd docs`
abbrev line : List ℕ
line = b'c' ∷ b'd' ∷ 32 ∷ b'd' ∷ b'o' ∷ b'c' ∷ b's' ∷ []

run_line_example :
    (after rest more : List ℕ) × (cmd : Command) × (run (line ++ b'\n' ∷ []) start
      ≡ some (shell after 0 (putchar b'\n' (writestr line screen)), cmd ∷ []))
    × Picks (word_of line) (unrecognised line more) cmd (commands (argument line rest))
run_line_example =
    run_line line (replicate 256 0) screen
      (
        omega arith,
        omega arith,
        omega arith,
        (
          omega arith,
          omega arith,
          omega arith,
          (
            omega arith,
            omega arith,
            omega arith,
            (
              omega arith,
              omega arith,
              omega arith,
              (
                omega arith,
                omega arith,
                omega arith,
                (
                  omega arith,
                  omega arith,
                  omega arith,
                  (omega arith, omega arith, omega arith, tt),
                ),
              ),
            ),
          ),
        ),
      )
      (omega arith) refl

abbrev name : List ℕ
name = b'a' ∷ b'.' ∷ b'b' ∷ []

write_binary_args-to_hex_example :
    write_binary_args (name ++ 32 ∷ (to_hex (72 ∷ 255 ∷ []) ++ 0 ∷ []))
    ≡ some (name ++ replicate (12 - 3) 0, 72 ∷ 255 ∷ [])
write_binary_args-to_hex_example =
    write_binary_args-to_hex name (72 ∷ 255 ∷ []) [] (is_text-IsText name refl)
      (omega arith, (omega arith, (omega arith, tt))) (omega arith) (omega arith, (omega arith, tt))
      (omega arith)
