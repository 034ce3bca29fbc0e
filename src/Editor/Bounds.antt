-- ===== src/Editor/Bounds.antt =====
-- The cursor and the buffers of the editor stay in bounds, whatever is typed.
use ring_os.Prelude.{
  ℕ, zero, suc, ◌+◌, ◌-◌, ◌*◌, ◌≤◌, ◌<◌, ◌≡◌, refl, ◌∙◌, Bool, true, false, ◌&&◌, Option, List, [],
  ◌∷◌, arith, ltb, leb, ◌==◌, if◌then◌else◌, length, set, get_or, length-set, get_or-set_self,
  Bool-cases, inl, inr,
}
use ring_os.Editor.{
  Editor, Effect, is_command, clear_command, execute_command, next_line, line_end, backspace,
  insert_key, command_key, normal_key, handle_key, cursor_index, is_printable,
}

-- The cursor is on a line or behind its last column, the buffers have the size that they are
-- declared with, and the text of the command ends inside its buffer.
pub record InBounds (e : Editor) : Type 0 where
  pub column : e.cursor_x ≤ 80
  pub line : e.cursor_y ≤ 22
  pub text_size : length e.buffer ≡ 1920
  pub command_size : length e.command_buffer ≡ 128
  pub command_end : e.command_buffer_pos < 128
  pub terminated : get_or e.command_buffer e.command_buffer_pos 0 ≡ 0

line_end-le : (buffer : List ℕ) (start n : ℕ) → line_end buffer start n ≤ n
unfolding line_end
line_end-le buffer start zero = omega arith
line_end-le buffer start (suc i) = ground (arith, line_end-le buffer start i)

-- A guard keeps what both of its branches keep.
if-InBounds :
    (b : Bool) (e d : Editor)
    → (b ≡ true → InBounds e)
    → (b ≡ false → InBounds d)
    → InBounds (if b then e else d)
if-InBounds true e d h k = h refl
if-InBounds false e d h k = k refl

-- The column does not matter.
next_line-InBounds :
    (e : Editor) (x : ℕ) → InBounds e → InBounds (next_line (record e { cursor_x = x }))
unfolding next_line
next_line-InBounds e x v = record {
  column = omega arith;
  line = ground (arith, v.line);
  text_size = v.text_size;
  command_size = v.command_size;
  command_end = v.command_end;
  terminated = v.terminated;
}

clear_command-InBounds : (e : Editor) → InBounds e → InBounds (clear_command e)
clear_command-InBounds e v = record {
  column = v.column;
  line = v.line;
  text_size = v.text_size;
  command_size = length-set e.command_buffer 0 0 ∙ v.command_size;
  command_end = omega arith;
  terminated = get_or-set_self e.command_buffer 0 0 0 (omega (arith, v.command_size));
}

-- A change of the text and the cursor.
text-InBounds :
    (e : Editor) (buffer : List ℕ) (x y : ℕ)
    → InBounds e
    → length buffer ≡ 1920
    → x ≤ 80
    → y ≤ 22
    → InBounds (record e { buffer = buffer; cursor_x = x; cursor_y = y })
text-InBounds e buffer x y v len cx cy = record {
  column = cx;
  line = cy;
  text_size = len;
  command_size = v.command_size;
  command_end = v.command_end;
  terminated = v.terminated;
}

flags-InBounds :
    (e : Editor) (i c q : Bool)
    → InBounds e
    → InBounds (record e { insert_mode = i; command_mode_active = c; editor_exit = q })
flags-InBounds e i c q v = record {
  column = v.column;
  line = v.line;
  text_size = v.text_size;
  command_size = v.command_size;
  command_end = v.command_end;
  terminated = v.terminated;
}

execute_command-InBounds : (e : Editor) → InBounds e → InBounds (execute_command e).0
unfolding execute_command
execute_command-InBounds e v = elim (Bool-cases (is_command e b'w')) [
  | inl w ↦ rw w (clear_command-InBounds e v)
  | inr w ↦ elim (Bool-cases (is_command e b'q')) [
    | inl q ↦
        rw (w, q)
          (clear_command-InBounds (record e { editor_exit = true })
            (flags-InBounds e e.insert_mode e.command_mode_active true v))
    | inr q ↦ rw (w, q) (clear_command-InBounds e v)
  ]
]

-- A change of the command.
command-InBounds :
    (e : Editor) (text : List ℕ) (p : ℕ) (active : Bool)
    → InBounds e
    → length text ≡ 128
    → p < 128
    → get_or text p 0 ≡ 0
    → InBounds
        (record e { command_buffer = text; command_buffer_pos = p; command_mode_active = active })
command-InBounds e text p active v len lt ended = record {
  column = v.column;
  line = v.line;
  text_size = v.text_size;
  command_size = len;
  command_end = lt;
  terminated = ended;
}

backspace-InBounds : (e : Editor) → InBounds e → InBounds (backspace e)
unfolding backspace
backspace-InBounds e v =
    if-InBounds (ltb 0 e.cursor_x) _ _
      (λ _.
        text-InBounds e (set e.buffer (e.cursor_y * 80 + (e.cursor_x - 1)) 0) (e.cursor_x - 1)
          e.cursor_y v (length-set e.buffer _ 0 ∙ v.text_size) (omega (arith, v.column)) v.line)
      λ _.
        if-InBounds (ltb 0 e.cursor_y) _ _
          (λ _.
            text-InBounds e e.buffer (line_end e.buffer ((e.cursor_y - 1) * 80) 80) (e.cursor_y - 1)
              v v.text_size (line_end-le e.buffer _ 80) (omega (arith, v.line)))
          λ _. v

-- A character that is typed, whether the line is full then or not.
type-InBounds :
    (key : ℕ) (e : Editor)
    → InBounds e
    → let typed = record e {
      buffer = set e.buffer (cursor_index e) key;
      cursor_x = e.cursor_x + 1;
    } in
      InBounds (if leb 80 (e.cursor_x + 1) then next_line typed else typed)
type-InBounds key e v =
    let buffer = set e.buffer (cursor_index e) key in
    let len = length-set e.buffer (cursor_index e) key ∙ v.text_size in
    if-InBounds (leb 80 (e.cursor_x + 1)) _ _
      (λ _.
        next_line-InBounds (record e { buffer = buffer }) (e.cursor_x + 1)
          (text-InBounds e buffer e.cursor_x e.cursor_y v len v.column v.line))
      λ h. text-InBounds e buffer (e.cursor_x + 1) e.cursor_y v len (ground arith) v.line

insert_key-InBounds : (key : ℕ) (e : Editor) → InBounds e → InBounds (insert_key key e)
unfolding insert_key
insert_key-InBounds key e v =
    if-InBounds (key == 27) _ _ (λ _. flags-InBounds e false e.command_mode_active e.editor_exit v)
      λ _.
        if-InBounds (key == b'\n') _ _ (λ _. next_line-InBounds e e.cursor_x v)
          λ _.
            if-InBounds (is_printable key) _ _ (λ _. type-InBounds key e v)
              λ _. if-InBounds (key == 8) _ _ (λ _. backspace-InBounds e v) (λ _. v)

-- A movement of the cursor.
move-InBounds :
    (e : Editor) (x y : ℕ)
    → InBounds e
    → x ≤ 80
    → y ≤ 22
    → InBounds (record e { cursor_x = x; cursor_y = y })
move-InBounds e x y v = text-InBounds e e.buffer x y v v.text_size

normal_key-InBounds : (key : ℕ) (e : Editor) → InBounds e → InBounds (normal_key key e)
unfolding normal_key
normal_key-InBounds key e v =
    let x = e.cursor_x in
    let y = e.cursor_y in
    let col = v.column in
    let row = v.line in
    let ended = clear_command-InBounds e v in
    if-InBounds (key == b'<') _ _
      (λ _. if-InBounds (ltb 0 x) _ _ (λ _. move-InBounds e (x - 1) y v (omega arith) row) (λ _. v))
      λ _.
        if-InBounds (key == b'>') _ _
          (λ _.
            if-InBounds (ltb x 79) _ _ (λ h. move-InBounds e (x + 1) y v (ground arith) row)
              (λ _. v))
          λ _.
            if-InBounds (key == b'^') _ _
              (λ _.
                if-InBounds (ltb 0 y) _ _ (λ _. move-InBounds e x (y - 1) v col (omega arith))
                  (λ _. v))
              λ _.
                if-InBounds (key == b'v') _ _
                  (λ _.
                    if-InBounds (ltb y 22) _ _ (λ h. move-InBounds e x (y + 1) v col (ground arith))
                      (λ _. v))
                  λ _.
                    if-InBounds (key == b'i') _ _
                      (λ _. flags-InBounds e true e.command_mode_active e.editor_exit v)
                      λ _.
                        if-InBounds (key == b':') _ _
                          (λ _.
                            command-InBounds e (set e.command_buffer 0 0) 0 true v
                              ended.command_size ended.command_end ended.terminated)
                          λ _. v

-- A guard on the editor that comes with an effect.
if_pair :
    (b : Bool) (r s : Editor × Option Effect)
    → (b ≡ true → InBounds r.0)
    → (b ≡ false → InBounds s.0)
    → InBounds (if b then r else s).0
if_pair true r s h k = h refl
if_pair false r s h k = k refl

command_key-InBounds : (key : ℕ) (e : Editor) → InBounds e → InBounds (command_key key e).0
unfolding command_key
command_key-InBounds key e v =
    let text = e.command_buffer in
    let p = e.command_buffer_pos in
    let size = v.command_size in
    if_pair (key == b'\n') _ _
      (λ _. clear_command-InBounds (execute_command e).0 (execute_command-InBounds e v))
      λ _.
        if_pair (key == 8) _ _
          (λ _.
            if-InBounds (ltb 0 p) _ _
              (λ h.
                command-InBounds e (set text (p - 1) 0) (p - 1) e.command_mode_active v
                  (length-set text (p - 1) 0 ∙ size) (omega (arith, v.command_end))
                  (get_or-set_self text (p - 1) 0 0 (omega (arith, v.command_end, size))))
              λ _. v)
          λ _.
            if_pair (is_printable key && ltb p 127) _ _
              (λ h.
                let once = length-set text p key ∙ size in
                let lt : p + 1 < 128 = ground arith in
                command-InBounds e (set (set text p key) (p + 1) 0) (p + 1) e.command_mode_active v
                  (length-set (set text p key) (p + 1) 0 ∙ once) lt
                  (get_or-set_self (set text p key) (p + 1) 0 0 (omega (arith, once, lt))))
              λ _. v

-- Every key, in every mode, keeps the editor in bounds.
pub handle_key-InBounds : (key : ℕ) (e : Editor) → InBounds e → InBounds (handle_key key e).0
unfolding handle_key
handle_key-InBounds key e v =
    if_pair e.insert_mode _ _ (λ _. insert_key-InBounds key e v)
      λ _.
        if_pair e.command_mode_active _ _ (λ _. command_key-InBounds key e v)
          λ _. normal_key-InBounds key e v

-- The editor after a sequence of keys.
abbrev pub handle_keys : List ℕ → Editor → Editor
handle_keys [] e = e
handle_keys (key ∷ keys) e = handle_keys keys (handle_key key e).0

-- From an editor in bounds every sequence of keys leads to one in bounds.
pub handle_keys-InBounds : (keys : List ℕ) (e : Editor) → InBounds e → InBounds (handle_keys keys e)
handle_keys-InBounds [] e v = v
handle_keys-InBounds (key ∷ keys) e v =
    handle_keys-InBounds keys (handle_key key e).0 (handle_key-InBounds key e v)
