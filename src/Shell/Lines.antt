-- ===== src/Shell/Lines.antt =====
-- readline of buildin/buildin_shell.c: the line that was typed, with what a backspace takes back.
use rdix.Common.{
  ℕ, ◌+◌, ◌≤◌, ◌<◌, ◌≡◌, ◌∙◌, inl, inr, refl, ap, true, false, some, List, [], ◌∷◌, ◌++◌, arith,
  Outcome, ok, ◌>>=◌, lt→ltb, ◌==◌, ==→eq, ==→ne, Bool-cases, length, get_or, set, take, length-set,
  get_elem?-eq-get_or, get_or-set_self, get_or-set_ne, get_elem?,
}
use rdix.Shell.{Line, echoed, close_line, key_backspace, key_tab, is_newline, readline}
use rdix.Shell.Edits.{
  front, edited, Fits, Holds, take-set_self, head-prefix, length-front, length-push, Holds-same,
  Holds-front, Holds-push,
}

-- The call returns, with the text in the buffer and its NUL behind it.
abbrev pub Reads : List ℕ → Outcome Line → Type 0
Reads text m =
    (line : Line) × (m ≡ ok line)
    × (take (length text) line.buf ≡ text)
    × (get_elem? line.buf (length text) ≡ some 0)

close_line-Reads :
    (buf text echo rest : List ℕ)
    → length text < length buf
    → Holds buf text
    → Reads text (close_line (length text) buf echo rest)
close_line-Reads buf text echo rest low h = (
  record { buf = set buf (length text) 0; echo = echo; rest = rest },
  rw (lt→ltb (length text) (length buf) low) refl,
  take-set_self (length text) buf 0 ∙ h.prefix,
  get_elem?-eq-get_or (set buf (length text) 0) (length text) 0
        (omega (arith, length-set buf (length text) 0))
      ∙ ap some (get_or-set_self buf (length text) 0 0 low),
)

Reads-echoed :
    (ch : ℕ) (text : List ℕ) (m : Outcome Line)
    → Reads text m
    → Reads text (m >>= λ line. ok (echoed ch line))
Reads-echoed ch text m (line, run, prefix, ends) = (echoed ch line, rw run refl, prefix, ends)

readline-Reads :
    (input text buf : List ℕ) (count : ℕ)
    → count ≤ length buf
    → Holds buf text
    → Fits count text input
    → Reads (edited text input) (readline input buf (length text) count)
unfolding readline
readline-Reads [] text buf count room h fits = close_line-Reads buf text [] [] (omega arith) h
readline-Reads (ch ∷ input) text buf count room h (low, more) =
    let typed = set buf (length text) ch in
    let long = length-set buf (length text) ch in
    let room1 : count ≤ length typed = omega (arith, long) in
    let same = Holds-same buf text ch h in
    rw (lt→ltb (length text) count low) (elim (Bool-cases (is_newline ch)) [
      | inl b ↦ rw b (close_line-Reads typed text (10 ∷ []) input (omega (arith, long)) same)
      | inr b ↦ elim (Bool-cases (ch == key_backspace)) [
        | inl back ↦
            let shorter = length-front text in
            let fits1 = rw back at (more b) in
            let shown = Holds-front typed text same in
            let on = readline-Reads input (front text) typed count room1 shown fits1 in
            rw (b, back)
              (elim (Bool-cases (length text == 0)) [
                | inl none_left ↦
                    let nil = ==→eq (length text) 0 none_left in
                    let at : (get_or typed 0 0 == key_backspace) ≡ true =
                      rw (nil, get_or-set_self buf 0 ch 0 (omega arith)) back in
                    let stay : length (front text) ≡ length text = omega (arith, shorter) in
                    rw at (rw stay at on)
                | inr some_left ↦
                    let ne = ==→ne (length text) 0 some_left in
                    let head : get_or typed 0 0 ≡ get_or text 0 0 =
                      get_or-set_ne buf (length text) 0 ch 0 ne
                      ∙ head-prefix text buf (omega (arith, ne)) h.prefix in
                    let at : (get_or typed 0 0 == key_backspace) ≡ false =
                      rw head (ground (arith, h.clean)) in
                    rw at
                      (Reads-echoed key_backspace (edited (front text) input) _ (rw shorter at on))
              ])
        | inr other ↦ elim (Bool-cases (ch == key_tab)) [
          | inl skip ↦
              rw (b, other, skip)
                (readline-Reads input text typed count room1 same (rw (other, skip) at (more b)))
          | inr plain ↦
              let pushed = Holds-push buf text ch (omega arith) (==→ne ch key_backspace other) h in
              let next : length text + 1 ≡ length (text ++ ch ∷ []) =
                omega (arith, length-push text ch) in
              rw (b, other, plain)
                (Reads-echoed ch (edited (text ++ ch ∷ []) input) _ (
                  rw next (
                    readline-Reads input (text ++ ch ∷ []) typed count room1 pushed
                      (rw (other, plain) at (more b)))))
        ]
      ]
    ])

-- A buffer of at least `count` characters, and keys whose text never grows to `count` characters:
-- readline returns with the edited text and a NUL behind it, where a backspace takes back the last
-- character, if there is one, and a tab nothing.
pub readline-edited :
    (input buf : List ℕ) (count : ℕ)
    → count ≤ length buf
    → Fits count [] input
    → Reads (edited [] input) (readline input buf 0 count)
readline-edited input buf count room fits =
    readline-Reads input [] buf count room
      (record { prefix = refl; clean = λ e. absurd (omega arith) }) fits
