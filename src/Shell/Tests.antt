-- ===== src/Shell/Tests.antt =====
-- Lines that are typed, and what the shell makes of them.
use rdix.Common.{ℕ, ◌≡◌, refl, none, some, List, [], ◌∷◌, arith, ok, panic, replicate}
use rdix.Text.{strcmp}
use rdix.Shell.{
  readline, key_backspace, skip_token, cut_word, parse_words, cmd_parse, max_cmd_len, with_path, cd,
  mkdir, find_command, builtin, execute, osh_round,
}
use rdix.Shell.Words.{Split, cmd_parse-Split}
use rdix.Shell.Edits.{Fits}
use rdix.Shell.Lines.{Reads, readline-edited}

-- `mkdir  a`
abbrev line : List ℕ
line = b'm' ∷ b'k' ∷ b'd' ∷ b'i' ∷ b'r' ∷ b' ' ∷ b' ' ∷ b'a' ∷ []

abbrev words : List (List ℕ)
words = (b'm' ∷ b'k' ∷ b'd' ∷ b'i' ∷ b'r' ∷ []) ∷ (b'a' ∷ []) ∷ []

line-Split : Split b' ' line words
line-Split = (
  [],
  b' ' ∷ b' ' ∷ b'a' ∷ [],
  refl,
  tt,
  (
    (λ e. absurd (omega arith)),
    (
      (λ e. absurd (omega arith)),
      (
        (λ e. absurd (omega arith)),
        ((λ e. absurd (omega arith)), ((λ e. absurd (omega arith)), tt)),
      ),
    ),
  ),
  refl,
  (b' ' ∷ b' ' ∷ [], [], refl, (refl, (refl, tt)), ((λ e. absurd (omega arith)), tt), tt, tt),
)

cmd_parse-Split_example : cmd_parse line b' ' ≡ ok words
cmd_parse-Split_example = cmd_parse-Split line b' ' words line-Split

-- `pq`, a backspace, `w` and a newline
abbrev keys : List ℕ
keys = b'p' ∷ b'q' ∷ key_backspace ∷ b'w' ∷ 10 ∷ []

keys-Fits : Fits max_cmd_len [] keys
keys-Fits = (
  omega arith,
  λ e. (omega arith, λ e. (omega arith, λ e. (omega arith, λ e. (omega arith, λ e. cc)))),
)

readline-edited_example : Reads (b'p' ∷ b'w' ∷ []) (readline keys (replicate 256 0) 0 max_cmd_len)
readline-edited_example = readline-edited keys (replicate 256 0) max_cmd_len (omega arith) keys-Fits

made : osh_round line ≡ ok (with_path mkdir (some (b'a' ∷ [])))
unfolding osh_round cmd_parse parse_words skip_token cut_word execute find_command strcmp builtin
made = refl

-- cd without an argument asks for a path that is NULL
cd_null : osh_round (b'c' ∷ b'd' ∷ []) ≡ ok (with_path cd none)
unfolding osh_round cmd_parse parse_words skip_token cut_word execute find_command strcmp builtin
cd_null = refl

-- a line of one space has no word for execute
only_space : osh_round (b' ' ∷ []) ≡ panic
unfolding osh_round cmd_parse parse_words skip_token cut_word execute
only_space = refl
