-- ===== src/Shell.antt =====
-- kernel/shell.c: the command line, and which command a line is.
pub mod Hex
pub mod Typing
pub mod Line
pub mod Sizes
mod Tests
use mathlib.Core.Option
use package.ring_os.Prelude.{
  ℕ, zero, suc, ◌+◌, ◌-◌, ◌/◌, ◌%◌, Bool, true, false, ◌&&◌, not, Option, none, some, List, [], ◌∷◌,
  ◌++◌, ltb, ◌==◌, if◌then◌else◌,
}
use package.ring_os.CString.{◌>>=◌, store, same_text}
use package.ring_os.Vga.{Vga, putchar}

-- `MAX_CMD_LENGTH`
abbrev pub max_cmd_length : ℕ
max_cmd_length = 256

-- The static variables, and the screen.
pub record Shell : Type 0 where
  pub cmd_buffer : List ℕ
  pub cmd_index : ℕ
  pub screen : Vga

-- What `shell_process_command` calls. An argument is a pointer, `none` the null pointer.
pub data Command : Type 0 where
  help : Command
  clear : Command
  about : Command
  ls : Command
  create : Option (List ℕ) → Command
  delete : Option (List ℕ) → Command
  mkdir : Option (List ℕ) → Command
  writeb : List ℕ → Command
  readb : List ℕ → Command
  cd : Option (List ℕ) → Command
  cat : Option (List ℕ) → Command
  exec : Option (List ℕ) → Command
  int : Command
  ed : Option (List ℕ) → Command
  writetest : Command
  -- The line is not empty, and begins with no command.
  unknown : List ℕ → Command
  nothing : Command

abbrev pub keyword : Command → List ℕ
keyword help = b'h' ∷ b'e' ∷ b'l' ∷ b'p' ∷ []
keyword clear = b'c' ∷ b'l' ∷ b'e' ∷ b'a' ∷ b'r' ∷ []
keyword about = b'a' ∷ b'b' ∷ b'o' ∷ b'u' ∷ b't' ∷ []
keyword ls = b'l' ∷ b's' ∷ []
keyword (create _) = b'c' ∷ b'r' ∷ b'e' ∷ b'a' ∷ b't' ∷ b'e' ∷ []
keyword (delete _) = b'd' ∷ b'e' ∷ b'l' ∷ b'e' ∷ b't' ∷ b'e' ∷ []
keyword (mkdir _) = b'm' ∷ b'k' ∷ b'd' ∷ b'i' ∷ b'r' ∷ []
keyword (writeb _) = b'w' ∷ b'r' ∷ b'i' ∷ b't' ∷ b'e' ∷ b'b' ∷ []
keyword (readb _) = b'r' ∷ b'e' ∷ b'a' ∷ b'd' ∷ b'b' ∷ []
keyword (cd _) = b'c' ∷ b'd' ∷ []
keyword (cat _) = b'c' ∷ b'a' ∷ b't' ∷ []
keyword (exec _) = b'e' ∷ b'x' ∷ b'e' ∷ b'c' ∷ []
keyword int = b'i' ∷ b'n' ∷ b't' ∷ []
keyword (ed _) = b'e' ∷ b'd' ∷ []
keyword writetest = b'w' ∷ b'r' ∷ b'i' ∷ b't' ∷ b'e' ∷ b't' ∷ b'e' ∷ b's' ∷ b't' ∷ []
keyword (unknown _) = []
keyword nothing = []

-- The commands in the order of the comparisons. `writeb` and `readb` need an argument.
abbrev pub commands : Option (List ℕ) → List Command
commands arg =
    let binary : List Command = elim arg [ none ↦ [] | some a ↦ writeb a ∷ readb a ∷ [] ] in
    help ∷ clear ∷ about ∷ ls ∷ create arg ∷ delete arg ∷ mkdir arg ∷ binary
    ++ cd arg ∷ cat arg ∷ exec arg ∷ int ∷ ed arg ∷ writetest ∷ []

-- The chain of comparisons of `shell_process_command`.
unfoldable pub choose : List ℕ → ℕ → List Command → Command
choose command cmd_index [] = if ltb 0 cmd_index then unknown command else nothing
choose command cmd_index (c ∷ cs) =
    if same_text command (keyword c) then c else choose command cmd_index cs

unfoldable pub dispatch : List ℕ → Option (List ℕ) → ℕ → Command
dispatch command arg cmd_index = choose command cmd_index (commands arg)

-- The loop for the first space, with `left` bytes to go: the bytes before it, and those behind it.
unfoldable pub find_space : ℕ → List ℕ → Option (List ℕ × List ℕ)
find_space zero buffer = none
find_space (suc left) [] = none
find_space (suc left) (c ∷ buffer) =
    if c == 32
    then some ([], buffer)
    else Option.map (λ (r : List ℕ × List ℕ). (c ∷ r.0, r.1)) (find_space left buffer)

-- `shell_process_command` up to the call of the command, and the reset of `cmd_index` behind it.
-- `none` is a write behind the end of the array.
unfoldable pub process_command : Shell → Option (Shell × Command)
process_command sh = do
  buffer ← store sh.cmd_buffer sh.cmd_index 0
  some (elim (find_space sh.cmd_index buffer) [
    | none ↦ (record sh { cmd_buffer = buffer; cmd_index = 0 }, dispatch buffer none sh.cmd_index)
    | some r ↦ (
      record sh { cmd_buffer = r.0 ++ 0 ∷ r.1; cmd_index = 0 },
      dispatch (r.0 ++ 0 ∷ r.1) (some r.1) sh.cmd_index,
    )
  ])

-- With the command that the key starts, if there is one.
unfoldable pub handle_keypress : ℕ → Shell → Option (Shell × Option Command)
handle_keypress c sh =
    if c == b'\n'
    then Option.map (λ (r : Shell × Command). (r.0, some r.1))
        (process_command (record sh { screen = putchar b'\n' sh.screen }))
    else if c == 8 && ltb 0 sh.cmd_index
    then some (record sh { cmd_index = sh.cmd_index - 1; screen = putchar 8 sh.screen }, none)
    else if not (c == 0) && ltb sh.cmd_index (max_cmd_length - 1) && not (c == 8)
    then Option.map
        (λ (b : List ℕ). (
          record { cmd_buffer = b; cmd_index = sh.cmd_index + 1; screen = putchar c sh.screen },
          none,
        ))
        (store sh.cmd_buffer sh.cmd_index c)
    else some (sh, none)

-- `shell_run` on the characters that `keyboard_read` returns, with the commands in their order. The
-- loop itself has no end.
unfoldable pub run : List ℕ → Shell → Option (Shell × List Command)
run [] sh = some (sh, [])
run (c ∷ cs) sh =
    if c == 0
    then run cs sh
    else handle_keypress c sh >>= λ r.
        Option.map
          (λ (q : Shell × List Command).
            (q.0, elim r.1 [ none ↦ q.1 | some command ↦ command ∷ q.1 ]))
          (run cs r.0)
