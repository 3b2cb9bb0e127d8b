-- ===== src/Tools/QuoteShell/Laws.antt =====
-- Whatever the value is, the shell reads its quoted form as one word, the value itself.
use better_unraid_mcp.Base.{
  ℕ, true, arith, All, is_alnum, is_alpha, is_digit, ◌≡◌, refl, sym, ap, ◌∙◌, Text, List, [], ◌∷◌,
  ◌++◌, u, some, join, map, Bool-cases, ==_iff, ◌==◌, inl, inr,
}
use mathlib.Core.List.{append-nil, append_assoc}
use better_unraid_mcp.Tools.QuoteShell.{escape_quotes, quote_for_shell}
use better_unraid_mcp.Tools.QuoteShell.Reader.{
  between, emit, bare, quoted, read, words, push, close, prepend, move, in_word, at_end, is_literal,
}

pub prepend-some :
    (s word : Text) (rest : List Text) → prepend s (some (word ∷ rest)) ≡ some ((s ++ word) ∷ rest)
unfolding prepend push
prepend-some [] word rest = refl
prepend-some (c ∷ s) word rest = rw (prepend-some s word rest) refl

read-escape_quotes :
    (value s : Text)
    → read quoted (escape_quotes value ++ (b'\'' ∷ s)) ≡ prepend value (read bare s)
unfolding read move in_word at_end escape_quotes prepend u
read-escape_quotes [] s = refl
read-escape_quotes (c ∷ value) s = elim (Bool-cases (c == b'\'')) [
  | inl e ↦
      rw (e, escape_quotes)
        (rw ((==_iff c b'\'').0 e) (ap (push b'\'') (read-escape_quotes value s)))
  | inr e ↦ rw (e, escape_quotes) (rw (e, read, move) (ap (push c) (read-escape_quotes value s)))
]

-- A quoted value at the front of a command is its first word, together with what follows the quotes.
pub read-quote_for_shell :
    (value s : Text) → read between (quote_for_shell value ++ s) ≡ prepend value (read bare s)
unfolding read move in_word quote_for_shell u
read-quote_for_shell value s =
    rw (append_assoc (escape_quotes value) (b'\'' ∷ []) s) (read-escape_quotes value s)

-- The same within a word.
pub read-quote_for_shell_within :
    (value s : Text) → read bare (quote_for_shell value ++ s) ≡ prepend value (read bare s)
unfolding read move in_word quote_for_shell u
read-quote_for_shell_within value s =
    rw (append_assoc (escape_quotes value) (b'\'' ∷ []) s) (read-escape_quotes value s)

-- Any list of values that are quoted one by one and joined by blanks is read by the shell as exactly
-- these words, whatever characters the values have.
pub words-quote_for_shell :
    (values : List Text) → words (join (u " ") (map quote_for_shell values)) ≡ some values
unfolding words read move at_end join u prepend close
words-quote_for_shell [] = refl
words-quote_for_shell (value ∷ []) =
    sym (ap (read between) (append-nil (quote_for_shell value)))
    ∙ read-quote_for_shell value []
    ∙ prepend-some value [] []
    ∙ ap (λ word. some (word ∷ [])) (append-nil value)
words-quote_for_shell (value ∷ (next ∷ values)) =
    read-quote_for_shell value (u " " ++ join (u " ") (map quote_for_shell (next ∷ values)))
    ∙ ap (λ rest. prepend value (close rest)) (words-quote_for_shell (next ∷ values))
    ∙ prepend-some value [] (next ∷ values)
    ∙ ap (λ word. some (word ∷ next ∷ values)) (append-nil value)

-- A quoted value at the end of a command is its last word.
pub read-quote_for_shell_last :
    (value : Text) → read between (quote_for_shell value) ≡ some (value ∷ [])
unfolding words join
read-quote_for_shell_last value = words-quote_for_shell (value ∷ [])

literal-move : (c : ℕ) → is_literal c ≡ true → move bare c ≡ emit bare
unfolding move in_word is_literal is_alnum is_alpha is_digit
literal-move c l = ground arith

literal-start : (c : ℕ) → is_literal c ≡ true → move between c ≡ emit bare
unfolding move in_word is_literal is_alnum is_alpha is_digit
literal-start c l = ground arith

-- Letters that have no meaning to the shell need no quotes.
pub read-literal :
    (s rest : Text)
    → All (λ c. is_literal c ≡ true) s
    → read bare (s ++ rest) ≡ prepend s (read bare rest)
unfolding read move in_word prepend
read-literal [] rest h = refl
read-literal (c ∷ s) rest (l, h) = rw (literal-move c l, read) (ap (push c) (read-literal s rest h))

pub read-literal_word :
    (c : ℕ) (s rest : Text)
    → All (λ d. is_literal d ≡ true) (c ∷ s)
    → read between ((c ∷ s) ++ rest) ≡ prepend (c ∷ s) (read bare rest)
unfolding read prepend
read-literal_word c s rest (l, h) =
    rw (literal-start c l, read) (ap (push c) (read-literal s rest h))

-- A word of such letters at the end of a command.
pub read-literal_last : (s : Text) → All (λ c. is_literal c ≡ true) s → read bare s ≡ some (s ∷ [])
unfolding read at_end
read-literal_last s l =
    sym (ap (read bare) (append-nil s))
    ∙ read-literal s [] l
    ∙ prepend-some s [] []
    ∙ ap (λ word. some (word ∷ [])) (append-nil s)

-- Such a word between two others.
pub read-literal_middle :
    (c : ℕ) (s rest : Text) (words : List Text)
    → All (λ d. is_literal d ≡ true) (c ∷ s)
    → read bare rest ≡ some ([] ∷ words)
    → read between ((c ∷ s) ++ rest) ≡ some ((c ∷ s) ∷ words)
read-literal_middle c s rest words l e =
    read-literal_word c s rest l
    ∙ ap (prepend (c ∷ s)) e
    ∙ prepend-some (c ∷ s) [] words
    ∙ ap (λ word. some (word ∷ words)) (append-nil (c ∷ s))
