-- ===== src/Tools/QuoteShell/Reader.antt =====
-- The quoting rules of the POSIX shell (Shell Command Language, 2.2), as a reader that splits a simple
-- command into its words. It knows single quotes, the backslash, blanks, letters that have no meaning to
-- the shell, and the semicolon that ends the command; a text with any other unquoted character is
-- refused.
use better_unraid_mcp.Base.{
  ℕ, Text, List, [], ◌∷◌, Bool, ◌||◌, Option, none, some, ◌==◌, is_alnum, if◌then◌else◌,
}

-- Where the reader stands: between two words, within a word, within single quotes, behind a backslash.
pub data Mode : Type 0 where
  between bare quoted escaped : Mode

-- What a character does.
pub data Move : Type 0 where
  emit : Mode → Move
  enter : Mode → Move
  end_word : Move
  skip : Move
  finish : Move
  refuse : Move

-- The characters that stand for themselves without quotes.
unfoldable pub is_literal : ℕ → Bool
is_literal c =
    is_alnum c
    || (c == b'/'
        || (c == b'.'
            || (c == b'_'
                || (c == b'-' || (c == b'=' || (c == b':' || (c == b'@' || c == b'%')))))))

unfoldable pub in_word : ℕ → Move
unfolding is_literal
in_word c =
    if c == b'\''
    then enter quoted
    else if c == b'\\'
    then enter escaped
    else if c == b';'
    then finish
    else if is_literal c
    then emit bare
    else refuse

unfoldable pub move : Mode → ℕ → Move
unfolding in_word
move between c = if c == b' ' then skip else in_word c
move bare c = if c == b' ' then end_word else in_word c
move quoted c = if c == b'\'' then enter bare else emit quoted
move escaped c = emit bare

unfoldable pub push : ℕ → Option (List Text) → Option (List Text)
push c none = none
push c (some []) = some ((c ∷ []) ∷ [])
push c (some (word ∷ words)) = some ((c ∷ word) ∷ words)

unfoldable pub close : Option (List Text) → Option (List Text)
close none = none
close (some words) = some ([] ∷ words)

-- The letters of a text in front of the first word.
unfoldable pub prepend : Text → Option (List Text) → Option (List Text)
unfolding push
prepend [] rest = rest
prepend (c ∷ s) rest = push c (prepend s rest)

-- The words at the end of the command.
unfoldable pub at_end : Mode → Option (List Text)
at_end between = some []
at_end bare = some ([] ∷ [])
at_end quoted = none
at_end escaped = none

-- The words of the rest of a command; within a word, the first of them is the rest of that word.
unfoldable pub read : Mode → Text → Option (List Text)
unfolding move push close at_end
read mode [] = at_end mode
read mode (c ∷ s) = elim (move mode c) [
  | emit next ↦ push c (read next s)
  | enter next ↦ read next s
  | end_word ↦ close (read between s)
  | skip ↦ read between s
  | finish ↦ at_end mode
  | refuse ↦ none
]

-- The words of the first simple command of a command line.
unfoldable pub words : Text → Option (List Text)
unfolding read
words command = read between command
