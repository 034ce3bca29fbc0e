-- ===== src/Editor/Typing.antt =====
-- What is typed in insert mode, cell by cell.
use ring_os.Prelude.{
  ℕ, zero, suc, ◌+◌, ◌-◌, ◌*◌, ◌≤◌, ◌<◌, ◌≡◌, ◌≢◌, refl, ap, ◌∙◌, Bool, true, false, Option, none,
  ◌⊎◌, List, [], ◌∷◌, arith, ltb, leb, ◌==◌, if◌then◌else◌, set, get_or, get_or-set_self,
  get_or-set_ne, Bool-cases, ==_iff, ==→≢, inl, inr,
}
use ring_os.Editor.{
  Editor, Effect, command_key, normal_key, next_line, line_end, backspace, insert_key, handle_key,
  cursor_index, is_printable,
}
use ring_os.Editor.Bounds.{InBounds, handle_key-InBounds, handle_keys}

-- The editor with a key stored, before the cursor moves to another line.
abbrev typed : ℕ → Editor → Editor
typed key e = record e { buffer = set e.buffer (cursor_index e) key; cursor_x = e.cursor_x + 1 }

type_run :
    (key : ℕ) (e : Editor)
    → e.insert_mode ≡ true
    → 32 ≤ key
    → key ≤ 126
    → (handle_key key e).0
      ≡ (if leb 80 (e.cursor_x + 1) then next_line (typed key e) else typed key e)
unfolding handle_key insert_key
type_run key e mode low high =
    let a : (key == 27) ≡ false = ground arith in
    let b : (key == b'\n') ≡ false = ground arith in
    let c : is_printable key ≡ true = ground arith in
    let else_keys : Editor × Option Effect =
      if e.command_mode_active then command_key key e else (normal_key key e, none) in
    ap (λ (m : Bool). (if m then (insert_key key e, none) else else_keys).0) mode
    ∙ rw (a, b, c) refl

-- Both ends of the test for a full line leave the text alone.
type_buffer :
    (key : ℕ) (e : Editor)
    → e.insert_mode ≡ true
    → 32 ≤ key
    → key ≤ 126
    → (handle_key key e).0.buffer ≡ set e.buffer (cursor_index e) key
unfolding next_line
type_buffer key e mode low high = elim (Bool-cases (leb 80 (e.cursor_x + 1))) [
  | inl h ↦ ap (λ (d : Editor). d.buffer) (type_run key e mode low high) ∙ rw h refl
  | inr h ↦ ap (λ (d : Editor). d.buffer) (type_run key e mode low high) ∙ rw h refl
]

-- The mode and the cursor.
type_cursor :
    (key : ℕ) (e : Editor)
    → e.insert_mode ≡ true
    → 32 ≤ key
    → key ≤ 126
    → let e' = (handle_key key e).0 in
      (e'.insert_mode ≡ true)
      × (e'.cursor_x ≡ (if ltb e.cursor_x 79 then e.cursor_x + 1 else 0))
      × (e'.cursor_y ≡ (
          if ltb e.cursor_x 79
          then e.cursor_y
          else if ltb e.cursor_y 22
          then e.cursor_y + 1
          else 22))
unfolding next_line
type_cursor key e mode low high = rw (type_run key e mode low high) (ground (arith, mode))

-- In an editor in bounds and in insert mode a printable key is stored inside the text, at the
-- cursor, and changes no other byte. The cursor moves one column on, from the end of a line to the
-- start of the next, and from the end of the last line to its start.
pub type_key :
    (key : ℕ) (e : Editor)
    → InBounds e
    → e.insert_mode ≡ true
    → 32 ≤ key
    → key ≤ 126
    → let e' = (handle_key key e).0 in
      (cursor_index e < 1920)
      × ((p : ℕ)
          → get_or e'.buffer p 0 ≡ (if cursor_index e == p then key else get_or e.buffer p 0))
      × (e'.cursor_x ≡ (if ltb e.cursor_x 79 then e.cursor_x + 1 else 0))
      × (e'.cursor_y ≡ (
          if ltb e.cursor_x 79
          then e.cursor_y
          else if ltb e.cursor_y 22
          then e.cursor_y + 1
          else 22))
type_key key e v mode low high =
    let inside : cursor_index e < 1920 = omega (arith, v.column, v.line) in
    let moved = type_cursor key e mode low high in (inside, λ p. stored p inside, moved.1, moved.2)
  where
    stored :
        (p : ℕ)
        → cursor_index e < 1920
        → get_or (handle_key key e).0.buffer p 0
          ≡ (if cursor_index e == p then key else get_or e.buffer p 0)
    stored p inside =
        rw (type_buffer key e mode low high) (elim (Bool-cases (cursor_index e == p)) [
          | inl h ↦
              let same : cursor_index e ≡ p = (==_iff _ _).0 h in
              rw (h, ← same)
                (get_or-set_self e.buffer (cursor_index e) key 0 (omega (arith, v.text_size)))
          | inr h ↦ rw h (get_or-set_ne e.buffer {i = cursor_index e} {j = p} key 0 (==→≢ _ _ h))
        ])

-- In an editor in bounds and in insert mode, with the cursor in column 80 of a line above the
-- last, which is the first cell of the next line, two printable keys are both stored in that cell,
-- so that the first is lost, and no other byte changes.
pub behind_line :
    (a b : ℕ) (e : Editor)
    → InBounds e
    → e.insert_mode ≡ true
    → e.cursor_x ≡ 80
    → e.cursor_y < 22
    → 32 ≤ a
    → a ≤ 126
    → 32 ≤ b
    → b ≤ 126
    → let e' = handle_keys (a ∷ b ∷ []) e in
      (get_or e'.buffer (cursor_index e) 0 ≡ b)
      × ((p : ℕ) → cursor_index e ≢ p → get_or e'.buffer p 0 ≡ get_or e.buffer p 0)
behind_line a b e v mode col row low high low' high' =
    let e1 = (handle_key a e).0 in
    let first = type_key a e v mode low high in
    let moved = type_cursor a e mode low high in
    let second = type_key b e1 (handle_key-InBounds a e v) moved.0 low' high' in
    let same : cursor_index e1 ≡ cursor_index e = ground (arith, moved.1, moved.2) in
    (second.1 (cursor_index e) ∙ ground arith, λ p ne. second.1 p ∙ ground (arith, first.1 p))

line_end_lem :
    (buffer : List ℕ) (start n : ℕ)
    → let i = line_end buffer start n in
      ((k : ℕ) → i ≤ k → k < n → get_or buffer (start + k) 0 ≡ 0)
      × ((i ≡ 0) ⊎ (j : ℕ) × (i ≡ j + 1) × (get_or buffer (start + j) 0 ≢ 0))
unfolding line_end
line_end_lem buffer start zero = (λ k a b. absurd (omega arith), inl refl)
line_end_lem buffer start (suc n) =
    let rest = line_end_lem buffer start n in
    elim (Bool-cases (get_or buffer (start + n) 0 == 0)) [
      | inl h ↦
          let zero_there : get_or buffer (start + n) 0 ≡ 0 = (==_iff _ _).0 h in
          rw h (λ k a b. grind (arith, rest.0 k), rest.1)
      | inr h ↦ rw h (λ k a b. absurd (omega arith), inr (n, refl, ==→≢ _ _ h))
    ]

-- In insert mode backspace at the start of a line below the first changes no text; it moves the
-- cursor to the line above, behind its last byte that is not 0, or to its start if all are.
pub join_line :
    (e : Editor)
    → e.insert_mode ≡ true
    → e.cursor_x ≡ 0
    → 0 < e.cursor_y
    → let e' = (handle_key 8 e).0 in
      (e'.buffer ≡ e.buffer)
      × (e'.cursor_y + 1 ≡ e.cursor_y)
      × ((k : ℕ) → e'.cursor_x ≤ k → k < 80 → get_or e.buffer (e'.cursor_y * 80 + k) 0 ≡ 0)
      × ((e'.cursor_x ≡ 0)
          ⊎ (j : ℕ) × (e'.cursor_x ≡ j + 1) × (get_or e.buffer (e'.cursor_y * 80 + j) 0 ≢ 0))
unfolding handle_key insert_key backspace
join_line e mode col row =
    let above = line_end_lem e.buffer ((e.cursor_y - 1) * 80) 80 in
    let left : ltb 0 e.cursor_x ≡ false = ground arith in
    let up : ltb 0 e.cursor_y ≡ true = ground arith in
    rw mode (rw (left, up) (refl, omega arith, above.0, above.1))
