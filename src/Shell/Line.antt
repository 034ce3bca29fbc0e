-- ===== src/Shell/Line.antt =====
-- A line that was typed is echoed, and is the command that runs.
use mathlib.Core.Option
use ring_os.Prelude.{
  ℕ, zero, suc, ◌+◌, ◌<◌, ◌≡◌, ◌≢◌, ◌⊎◌, ℤ, pos, negsuc, is_zero, Bool, true, false, ◌&&◌, ltb,
  refl, sym, ap, ◌∙◌, Option, none, some, List, [], ◌∷◌, ◌++◌, arith, ◌==◌, if◌then◌else◌, length,
  drop, length-append, length-drop, Bool-cases, Option-cases, inl, inr, lt→ltb, ≢→==, append_assoc,
}
use mathlib.Core.Path.{subst}
use ring_os.CString.{store, same_text}
use ring_os.CString.Compare.{IsText, is_text, is_text-IsText, strcmp_zero_iff}
use ring_os.Vga.{Vga, putchar, writestr}
use ring_os.Shell.Typing.{process_command_step}
use ring_os.Shell.{
  Shell, Command, keyword, commands, unknown, nothing, choose, dispatch, find_space,
  process_command, handle_keypress, run,
}

-- Characters that are neither a terminator nor a backspace nor the end of a line.
abbrev pub IsOrdinary : List ℕ → Type 0
IsOrdinary [] = Unit
IsOrdinary (c ∷ t) = (c ≢ 0) × (c ≢ 8) × (c ≢ b'\n') × IsOrdinary t

abbrev pub word_of : List ℕ → List ℕ
word_of [] = []
word_of (c ∷ t) = if c == 32 then [] else c ∷ word_of t

-- What stands behind the first space.
abbrev pub arg_of : List ℕ → Option (List ℕ)
arg_of [] = none
arg_of (c ∷ t) = if c == 32 then some t else arg_of t

-- The command of a line, with the bytes that the array has behind it.
abbrev pub line_command : List ℕ → List ℕ → Command
line_command t rest = elim (arg_of t) [
  | none ↦ dispatch (t ++ 0 ∷ rest) none (length t)
  | some a ↦ dispatch (word_of t ++ 0 ∷ (a ++ 0 ∷ rest)) (some (a ++ 0 ∷ rest)) (length t)
]

abbrev pub shell : List ℕ → ℕ → Vga → Shell
shell buffer n screen = record { cmd_buffer = buffer; cmd_index = n; screen = screen }

store_at :
    (typed rest : List ℕ) (x v : ℕ)
    → store (typed ++ x ∷ rest) (length typed) v ≡ some (typed ++ v ∷ rest)
unfolding store
store_at [] rest x v = refl
store_at (c ∷ typed) rest x v = rw (store_at typed rest x v) refl

-- A character that is neither a backspace nor the end of the line.
keypress :
    (c x : ℕ) (typed rest : List ℕ) (screen : Vga)
    → c ≢ 0
    → c ≢ 8
    → c ≢ b'\n'
    → length typed < 255
    → handle_keypress c (shell (typed ++ x ∷ rest) (length typed) screen)
      ≡ some (shell (typed ++ c ∷ rest) (length typed + 1) (putchar c screen), none)
unfolding handle_keypress
keypress c x typed rest screen z back line room =
    rw (≢→== c 10 line, ≢→== c 8 back, ≢→== c 0 z, lt→ltb (length typed) 255 room)
      (rw (store_at typed rest x c) refl)

run_step :
    (c : ℕ) (keys : List ℕ) (sh sh' : Shell)
    → c ≢ 0
    → handle_keypress c sh ≡ some (sh', none)
    → run (c ∷ keys) sh ≡ run keys sh'
unfolding run
run_step c keys sh sh' z e = rw (≢→== c 0 z, e) (same (run keys sh'))
  where
    same :
        (o : Option (Shell × List Command))
        → Option.map (λ (q : Shell × List Command). (q.0, q.1)) o ≡ o
    same none = refl
    same (some q) = refl

run_text :
    (t keys typed rest : List ℕ) (screen : Vga)
    → IsOrdinary t
    → length typed + length t < 256
    → length typed + length rest ≡ 256
    → run (t ++ keys) (shell (typed ++ rest) (length typed) screen)
      ≡ run keys (
          shell
            (typed ++ (t ++ drop (length t) rest))
            (length typed + length t)
            (writestr t screen))
unfolding writestr
run_text [] keys typed rest screen h room size =
    let e : length typed + 0 ≡ length typed = omega arith in
    ap (λ (n : ℕ). run keys (shell (typed ++ rest) n screen)) (sym e)
run_text (c ∷ t) keys typed [] screen h room size = absurd (omega arith)
run_text (c ∷ t) keys typed (x ∷ rest) screen h room size =
    let next = typed ++ c ∷ [] in
    let len : length next ≡ length typed + 1 = length-append typed (c ∷ []) in
    let one : typed ++ c ∷ rest ≡ next ++ rest = sym (append_assoc typed (c ∷ []) rest) in
    let all : next ++ (t ++ drop (length t) rest) ≡ typed ++ c ∷ (t ++ drop (length t) rest) =
      append_assoc typed (c ∷ []) (t ++ drop (length t) rest) in
    let count : length next + length t ≡ length typed + suc (length t) = omega (arith, len) in
    run_step c (t ++ keys) _ _ h.0 (keypress c x typed rest screen h.0 h.1 h.2 (omega arith))
    ∙ ap (λ (n : ℕ). run (t ++ keys) (shell (typed ++ c ∷ rest) n (putchar c screen))) (sym len)
    ∙ ap (λ (b : List ℕ). run (t ++ keys) (shell b (length next) (putchar c screen))) one
    ∙ run_text t keys next rest (putchar c screen) h.3 (omega (arith, len)) (omega (arith, len))
    ∙ ap
        (λ (b : List ℕ).
          run keys (shell b (length next + length t) (writestr t (putchar c screen))))
        all
    ∙ ap
        (λ (n : ℕ).
          run keys
            (shell (typed ++ c ∷ (t ++ drop (length t) rest)) n (writestr t (putchar c screen))))
        count

find_space_text :
    (t more : List ℕ)
    → find_space (length t) (t ++ more)
      ≡ Option.map {B = List ℕ × List ℕ} (λ (a : List ℕ). (word_of t, a ++ more)) (arg_of t)
unfolding find_space
find_space_text [] more = refl
find_space_text (c ∷ t) more = elim (Bool-cases (c == 32)) [
  | inl e ↦ rw e refl
  | inr e ↦ rw (e, find_space_text t more) (twice (arg_of t))
]
  where
    twice :
        (o : Option (List ℕ))
        → Option.map
            (λ (r : List ℕ × List ℕ). (c ∷ r.0, r.1))
            (Option.map {B = List ℕ × List ℕ} (λ (a : List ℕ). (word_of t, a ++ more)) o)
          ≡ Option.map {B = List ℕ × List ℕ} (λ (a : List ℕ). (c ∷ word_of t, a ++ more)) o
    twice none = refl
    twice (some a) = refl

processed :
    (t rest : List ℕ) (x : ℕ) (screen : Vga)
    → (b : List ℕ) × (process_command (shell (t ++ x ∷ rest) (length t) screen)
        ≡ some (shell b 0 screen, line_command t rest))
processed t rest x screen =
    let run =
      process_command_step (shell (t ++ x ∷ rest) (length t) screen) (t ++ 0 ∷ rest)
        (store_at t rest x 0) in
    elim (Option-cases (arg_of t)) [
      | inl e ↦ (t ++ 0 ∷ rest, run ∙ rw (find_space_text t (0 ∷ rest), e, line_command) refl)
      | inr (a, e) ↦ (
        word_of t ++ 0 ∷ (a ++ 0 ∷ rest),
        run ∙ rw (find_space_text t (0 ∷ rest), e, line_command) refl,
      )
    ]

-- The end of the line.
enter :
    (t rest : List ℕ) (x : ℕ) (screen : Vga)
    → (b : List ℕ) × (run (b'\n' ∷ []) (shell (t ++ x ∷ rest) (length t) screen)
        ≡ some (shell b 0 (putchar b'\n' screen), line_command t rest ∷ []))
unfolding run handle_keypress
enter t rest x screen =
    let (b, done) = processed t rest x (putchar b'\n' screen) in (b, rw done refl)

-- The line is echoed, and runs `line_command`.
line_step :
    (t buffer : List ℕ) (screen : Vga)
    → IsOrdinary t
    → length t < 256
    → length buffer ≡ 256
    → (after rest : List ℕ) × (run (t ++ b'\n' ∷ []) (shell buffer 0 screen)
        ≡ some (shell after 0 (putchar b'\n' (writestr t screen)), line_command t rest ∷ []))
line_step t buffer screen h room size =
    let typed = run_text t (b'\n' ∷ []) [] buffer screen h (omega arith) (omega arith) in
    let zero_index : 0 + length t ≡ length t = omega arith in
    go (drop (length t) buffer) (omega (arith, length-drop (length t) buffer)) (
      typed
      ∙ ap (λ (n : ℕ). run (b'\n' ∷ []) (shell (t ++ drop (length t) buffer) n (writestr t screen)))
          zero_index)
  where
    go :
        (more : List ℕ)
        → 0 < length more
        → run (t ++ b'\n' ∷ []) (shell buffer 0 screen)
          ≡ run (b'\n' ∷ []) (shell (t ++ more) (length t) (writestr t screen))
        → (after rest : List ℕ) × (run (t ++ b'\n' ∷ []) (shell buffer 0 screen)
            ≡ some (shell after 0 (putchar b'\n' (writestr t screen)), line_command t rest ∷ []))
    go [] some_byte e = absurd (omega arith)
    go (x ∷ rest) some_byte e =
        let (after, last) = enter t rest x (writestr t screen) in (after, rest, e ∙ last)

-- `cmd` is the first of the commands whose keyword is the word, or `other` if there is none.
abbrev pub Picks : List ℕ → Command → Command → List Command → Type 0
Picks word other cmd [] = cmd ≡ other
Picks word other cmd (c ∷ cs) =
    ((word ≡ keyword c) × (cmd ≡ c)) ⊎ ((word ≢ keyword c) × Picks word other cmd cs)

-- The pointer behind the first space, with the bytes behind the terminator, or none.
abbrev pub argument : List ℕ → List ℕ → Option (List ℕ)
argument t rest = Option.map (λ (a : List ℕ). a ++ 0 ∷ rest) (arg_of t)

-- What a line does that begins with no command: nothing if it is empty.
abbrev pub unrecognised : List ℕ → List ℕ → Command
unrecognised t more = if ltb 0 (length t) then unknown (word_of t ++ 0 ∷ more) else nothing

all_text : List Command → Bool
all_text [] = true
all_text (c ∷ cs) = is_text (keyword c) && all_text cs

commands_text : (arg : Option (List ℕ)) → all_text (commands arg) ≡ true
unfolding all_text
commands_text none = refl
commands_text (some a) = refl

IsText-word_of : (t : List ℕ) → IsOrdinary t → IsText (word_of t)
IsText-word_of [] h = tt
IsText-word_of (c ∷ t) h = elim (Bool-cases (c == 32)) [
  | inl e ↦ rw e tt
  | inr e ↦ rw e (h.0, IsText-word_of t h.3)
]

word_of-whole : (t : List ℕ) → arg_of t ≡ none → word_of t ≡ t
word_of-whole [] e = refl
word_of-whole (c ∷ t) e = elim (Bool-cases (c == 32)) [
  | inl space ↦ absurd (none_some t (rw space at e))
  | inr other ↦ rw other (ap (λ l. c ∷ l) (word_of-whole t (rw other at e)))
]
  where
    none_some : (t : List ℕ) → some t ≡ none → ⊥
    none_some t e = cc

choose_lem :
    (word more : List ℕ) (n : ℕ) (cs : List Command)
    → IsText word
    → all_text cs ≡ true
    → Picks word
        (if ltb 0 n then unknown (word ++ 0 ∷ more) else nothing)
        (choose (word ++ 0 ∷ more) n cs)
        cs
unfolding choose all_text
choose_lem word more n [] h texts = refl
choose_lem word more n (c ∷ cs) h texts =
    let text = is_text-IsText (keyword c) (both _ _ texts).0 in
    let (z, run, iff) = strcmp_zero_iff word (keyword c) more [] h text in
    let rest = choose (word ++ 0 ∷ more) n cs in
    let test : same_text (word ++ 0 ∷ more) (keyword c) ≡ is_zero z =
      ap (λ (o : Option ℤ). elim o [ none ↦ false | some q ↦ is_zero q ]) run in
    elim (Bool-cases (is_zero z)) [
      | inl e ↦ inl (iff.0 (zero_lem z e), ap (λ (b : Bool). if b then c else rest) (test ∙ e))
      | inr e ↦ inr (
        λ same. differs z e (iff.1 same),
        subst
            (λ (x : Command).
              Picks word (if ltb 0 n then unknown (word ++ 0 ∷ more) else nothing) x cs)
            (sym (ap (λ (b : Bool). if b then c else rest) (test ∙ e)))
            (choose_lem word more n cs h (both _ _ texts).1),
      )
    ]
  where
    both : (a b : Bool) → (a && b) ≡ true → (a ≡ true) × (b ≡ true)
    both true b e = (refl, e)
    both false b e = absurd (cc)

    zero_lem : (z : ℤ) → is_zero z ≡ true → z ≡ pos 0
    zero_lem (pos zero) e = refl
    zero_lem (pos (suc n)) e = absurd (cc)
    zero_lem (negsuc n) e = absurd (cc)

    differs : (z : ℤ) → is_zero z ≡ false → z ≢ pos 0
    differs (pos zero) e = absurd (cc)
    differs (pos (suc n)) e = λ same. absurd (cc)
    differs (negsuc n) e = λ same. absurd (cc)

-- From an empty command line, a line of at most 255 characters, none of them a terminator, a
-- backspace or the end of a line, and then the end of the line, are echoed on the screen, run
-- exactly one command, and leave the command line empty. It is the first command whose keyword is
-- the word before the first space, with what stands behind that space, up to a terminator, as its
-- argument. If there is no such command, it is the message on an unknown one, or nothing if the
-- line is empty.
pub run_line :
    (t buffer : List ℕ) (screen : Vga)
    → IsOrdinary t
    → length t < 256
    → length buffer ≡ 256
    → (after rest more : List ℕ) × (cmd : Command) × (run (t ++ b'\n' ∷ []) (shell buffer 0 screen)
        ≡ some (shell after 0 (putchar b'\n' (writestr t screen)), cmd ∷ []))
      × Picks (word_of t) (unrecognised t more) cmd (commands (argument t rest))
unfolding dispatch
run_line t buffer screen h room size =
    let (after, rest, ran) = line_step t buffer screen h room size in
    let text = IsText-word_of t h in
    elim (Option-cases (arg_of t)) [
      | inl e ↦ (
        after,
        rest,
        rest,
        dispatch (word_of t ++ 0 ∷ rest) none (length t),
        ran ∙ rw (e, line_command, word_of-whole t e) refl,
        rw e (choose_lem (word_of t) rest (length t) (commands none) text (commands_text none)),
      )
      | inr (a, e) ↦ (
        after,
        rest,
        a ++ 0 ∷ rest,
        dispatch (word_of t ++ 0 ∷ (a ++ 0 ∷ rest)) (some (a ++ 0 ∷ rest)) (length t),
        ran ∙ rw (e, line_command) refl,
        rw e (
            choose_lem (word_of t) (a ++ 0 ∷ rest) (length t) (commands (some (a ++ 0 ∷ rest))) text
              (commands_text (some (a ++ 0 ∷ rest)))),
      )
    ]
