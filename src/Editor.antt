-- ===== src/Editor.antt =====
-- kernel/editor.c: what a key does to the text, the cursor and the mode.
pub mod Bounds
pub mod Typing
pub mod Saving
mod Tests
use package.ring_os.Prelude.{
  ℕ, zero, suc, ◌+◌, ◌-◌, ◌*◌, Bool, true, false, not, ◌&&◌, Option, none, some, List, [], ◌∷◌, ltb,
  leb, ◌==◌, if◌then◌else◌, get_or, set, length, is_zero,
}
use package.ring_os.CString.{strcmp}

-- The static variables. `buffer` has 1920 bytes, `command_buffer` 128 and `current_filename` 64.
pub record Editor : Type 0 where
  pub buffer : List ℕ
  pub cursor_x : ℕ
  pub cursor_y : ℕ
  pub insert_mode : Bool
  pub command_mode_active : Bool
  pub command_buffer : List ℕ
  pub command_buffer_pos : ℕ
  pub current_filename : List ℕ
  pub editor_exit : Bool

-- What a command calls outside the editor's state.
pub data Effect : Type 0 where
  save_file : List ℕ → Effect
  no_filename : Effect
  syscall_exit : Effect
  test_fat32_write : Effect
  unknown_command : Effect

abbrev pub editor_width : ℕ
editor_width = 80

abbrev pub editor_height : ℕ
editor_height = 25

abbrev pub command_buffer_size : ℕ
command_buffer_size = 128

-- A command of one letter: `strcmp(command_buffer, "w") == 0` and its like.
abbrev pub is_command : Editor → ℕ → Bool
is_command e letter = elim (strcmp e.command_buffer (letter ∷ 0 ∷ [])) [
  | none ↦ false
  | some z ↦ is_zero z
]

abbrev pub clear_command : Editor → Editor
clear_command e = record e {
  command_mode_active = false;
  command_buffer_pos = 0;
  command_buffer = set e.command_buffer 0 0;
}

-- `editor_execute_command`
unfoldable pub execute_command : Editor → Editor × Effect
execute_command e =
    if is_command e b'w'
    then (
      clear_command e,
      if get_or e.current_filename 0 0 == 0 then no_filename else save_file e.current_filename,
    )
    else if is_command e b'q'
    then (clear_command (record e { editor_exit = true }), syscall_exit)
    else (clear_command e, if is_command e b't' then test_fat32_write else unknown_command)

-- To the start of the next line, of which the last is 22.
unfoldable pub next_line : Editor → Editor
next_line e = record e {
  cursor_x = 0;
  cursor_y = if leb (editor_height - 2) (e.cursor_y + 1) then editor_height - 3 else e.cursor_y + 1;
}

-- `buffer[cursor_y * 80 + cursor_x]`
abbrev pub cursor_index : Editor → ℕ
cursor_index e = e.cursor_y * editor_width + e.cursor_x

-- The search for the end of a line that starts at `start`, at column `left` - 1.
unfoldable pub line_end : List ℕ → ℕ → ℕ → ℕ
line_end buffer start zero = 0
line_end buffer start (suc i) =
    let rest = line_end buffer start i in if get_or buffer (start + i) 0 == 0 then rest else i + 1

unfoldable pub backspace : Editor → Editor
backspace e =
    if ltb 0 e.cursor_x
    then record e {
      cursor_x = e.cursor_x - 1;
      buffer = set e.buffer (e.cursor_y * editor_width + (e.cursor_x - 1)) 0;
    }
    else if ltb 0 e.cursor_y
    then record e {
      cursor_y = e.cursor_y - 1;
      cursor_x = line_end e.buffer ((e.cursor_y - 1) * editor_width) editor_width;
    }
    else e

-- `char` is signed: a byte from 128 on is below 32.
abbrev pub is_printable : ℕ → Bool
is_printable key = leb 32 key && leb key 126

unfoldable pub insert_key : ℕ → Editor → Editor
insert_key key e =
    let typed = record e {
      buffer = set e.buffer (cursor_index e) key;
      cursor_x = e.cursor_x + 1;
    } in
    if key == 27
    then record e { insert_mode = false }
    else if key == b'\n'
    then next_line e
    else if is_printable key
    then if leb editor_width (e.cursor_x + 1) then next_line typed else typed
    else if key == 8
    then backspace e
    else e

-- The effect is `none` but for Enter.
unfoldable pub command_key : ℕ → Editor → Editor × Option Effect
command_key key e =
    let (e', effect) = execute_command e in
    if key == b'\n'
    then (clear_command e', some effect)
    else if key == 8
    then (
      if ltb 0 e.command_buffer_pos
          then record e {
            command_buffer_pos = e.command_buffer_pos - 1;
            command_buffer = set e.command_buffer (e.command_buffer_pos - 1) 0;
          }
          else e,
      none,
    )
    else if is_printable key && ltb e.command_buffer_pos (command_buffer_size - 1)
    then (
      record e {
        command_buffer_pos = e.command_buffer_pos + 1;
        command_buffer =
            set (set e.command_buffer e.command_buffer_pos key) (e.command_buffer_pos + 1) 0;
      },
      none,
    )
    else (e, none)

unfoldable pub normal_key : ℕ → Editor → Editor
normal_key key e =
    if key == b'<'
    then if ltb 0 e.cursor_x then record e { cursor_x = e.cursor_x - 1 } else e
    else if key == b'>'
    then if ltb e.cursor_x (editor_width - 1) then record e { cursor_x = e.cursor_x + 1 } else e
    else if key == b'^'
    then if ltb 0 e.cursor_y then record e { cursor_y = e.cursor_y - 1 } else e
    else if key == b'v'
    then if ltb e.cursor_y (editor_height - 3) then record e { cursor_y = e.cursor_y + 1 } else e
    else if key == b'i'
    then record e { insert_mode = true }
    else if key == b':'
    then record e {
      command_mode_active = true;
      command_buffer_pos = 0;
      command_buffer = set e.command_buffer 0 0;
    }
    else e

-- `editor_handle_key`
unfoldable pub handle_key : ℕ → Editor → Editor × Option Effect
handle_key key e =
    if e.insert_mode
    then (insert_key key e, none)
    else if e.command_mode_active
    then command_key key e
    else (normal_key key e, none)

-- The loop of `editor_save_file` for `actual_size`, at byte `i` of the text.
unfoldable pub size_loop : List ℕ → ℕ → ℕ → ℕ
size_loop [] i actual = actual
size_loop (c ∷ rest) i actual = size_loop rest (i + 1) (if c == 0 then actual else i + 1)

unfoldable pub actual_size : List ℕ → ℕ
actual_size buffer = size_loop buffer 0 0
