-- ===== src/Editor/Tests.antt =====
-- An editor in insert mode, with a full first line.
use ring_os.Prelude.{
  ℕ, ◌+◌, ◌<◌, ◌≡◌, refl, true, false, List, [], ◌∷◌, ◌++◌, arith, ltb, ◌==◌, if◌then◌else◌,
  replicate, get_or,
}
use ring_os.Editor.{Editor, handle_key, cursor_index}
use ring_os.Editor.Bounds.{InBounds, handle_keys, handle_keys-InBounds}
use ring_os.Editor.Typing.{type_key}

-- The cursor behind the first line, and at the start of the second.
abbrev behind : Editor
behind = record {
  buffer = replicate 80 b'x' ++ replicate 1840 0;
  cursor_x = 80;
  cursor_y = 0;
  insert_mode = true;
  command_mode_active = false;
  command_buffer = replicate 128 0;
  command_buffer_pos = 0;
  current_filename = replicate 64 0;
  editor_exit = false;
}

abbrev second_line : Editor
second_line = record behind { cursor_x = 0; cursor_y = 1 }

behind-InBounds : InBounds behind
behind-InBounds = record {
  column = omega arith;
  line = omega arith;
  text_size = refl;
  command_size = refl;
  command_end = omega arith;
  terminated = refl;
}

handle_keys_example : InBounds (handle_keys (b'a' ∷ 27 ∷ b':' ∷ b'q' ∷ 10 ∷ []) behind)
handle_keys_example =
    handle_keys-InBounds (b'a' ∷ 27 ∷ b':' ∷ b'q' ∷ 10 ∷ []) behind behind-InBounds

type_key_example :
    let e' = (handle_key b'a' behind).0 in
    (cursor_index behind < 1920)
    × ((p : ℕ)
        → get_or e'.buffer p 0
          ≡ (if cursor_index behind == p then b'a' else get_or behind.buffer p 0))
    × (e'.cursor_x ≡ (if ltb behind.cursor_x 79 then behind.cursor_x + 1 else 0))
    × (e'.cursor_y ≡ (
        if ltb behind.cursor_x 79
        then behind.cursor_y
        else if ltb behind.cursor_y 22
        then behind.cursor_y + 1
        else 22))
type_key_example = type_key b'a' behind behind-InBounds refl (omega arith) (omega arith)

abbrev two_bytes : List ℕ
two_bytes = b'a' ∷ 0 ∷ b'b' ∷ 0 ∷ []
