-- ===== src/Host/Encoder/Shell.antt =====
-- What a POSIX shell reads in an encoded command line.
use visual_tmux_client.Prelude.{
  ◌≡◌, refl, ap, ◌∙◌, inl, inr, List, [], ◌∷◌, ◌++◌, append_assoc, append-nil, Option, none, some,
  Bytes, ◌==◌, nat_eq, arith, if◌then◌else◌, Bool-cases,
}
use visual_tmux_client.Host.Encoder.{
  quote, backslash, space, replace_quotes, encode_posix_arg, encode_more, encode_posix_command,
}

-- Where the shell stands: between words, or in a word of which it has read `w`: outside quotes, in
-- single quotes, or after a backslash.
pub data State : Type 0 where
  between : State
  unquoted quoted escaped : Bytes → State

cons_word : Bytes → Option (List Bytes) → Option (List Bytes)
cons_word w none = none
cons_word w (some ws) = some (w ∷ ws)

-- The words of a line, by the rules for single quotes, backslashes and spaces (XCU 2.2). Any other
-- character outside quotes may have a meaning to the shell: there is no reading then.
pub words : State → Bytes → Option (List Bytes)
unfolding cons_word
words between [] = some []
words (unquoted w) [] = some (w ∷ [])
words (quoted w) [] = none
words (escaped w) [] = none
words between (c ∷ s) =
    let open_ = words (quoted []) s in
    let esc = words (escaped []) s in
    let skip = words between s in
    if c == quote then open_ else if c == backslash then esc else if c == space then skip else none
words (unquoted w) (c ∷ s) =
    let open_ = words (quoted w) s in
    let esc = words (escaped w) s in
    let done = words between s in
    if c == quote
    then open_
    else if c == backslash
    then esc
    else if c == space
    then cons_word w done
    else none
words (quoted w) (c ∷ s) =
    let close_ = words (unquoted w) s in
    let more = words (quoted (w ++ c ∷ [])) s in if c == quote then close_ else more
words (escaped w) (c ∷ s) = words (unquoted (w ++ c ∷ [])) s

-- In quotes, the text with its quotes replaced is read as the text.
quoted-replace_quotes :
    (w s rest : Bytes)
    → words (quoted w) (replace_quotes s ++ (quote ∷ rest)) ≡ words (unquoted (w ++ s)) rest
unfolding replace_quotes words
quoted-replace_quotes w [] rest = rw append-nil
quoted-replace_quotes w (c ∷ s) rest = elim (Bool-cases (c == quote)) [
  | inl at ↦
      let same : c ≡ quote = ground arith in
      rw same (
        quoted-replace_quotes (w ++ quote ∷ []) s rest
        ∙ ap (λ l. words (unquoted l) rest) (append_assoc w (quote ∷ []) s))
  | inr other ↦
      rw (other, other)
        (quoted-replace_quotes (w ++ c ∷ []) s rest
          ∙ ap (λ l. words (unquoted l) rest) (append_assoc w (c ∷ []) s))
]

-- One encoded argument is read as one word, up to what follows it.
arg-between :
    (arg rest : Bytes) → words between (encode_posix_arg arg ++ rest) ≡ words (unquoted arg) rest
unfolding encode_posix_arg words
arg-between [] rest = refl
arg-between (c ∷ s) rest =
    ap (words (quoted [])) (append_assoc (replace_quotes (c ∷ s)) (quote ∷ []) rest)
    ∙ quoted-replace_quotes [] (c ∷ s) rest

space_ends : (w s : Bytes) → words (unquoted w) (space ∷ s) ≡ cons_word w (words between s)
unfolding words
space_ends w s = refl

some_word : (w : Bytes) (ws : List Bytes) → cons_word w (some ws) ≡ some (w ∷ ws)
unfolding words
some_word w ws = refl

more-unquoted :
    (w : Bytes) (args : List Bytes) → words (unquoted w) (encode_more args) ≡ some (w ∷ args)
unfolding encode_more
more-unquoted w [] = unfold words in refl
more-unquoted w (a ∷ args) =
    space_ends w (encode_posix_arg a ++ encode_more args)
    ∙ ap (cons_word w) (arg-between a (encode_more args) ∙ more-unquoted a args)
    ∙ some_word w (a ∷ args)

-- A POSIX shell reads an encoded command line as exactly its arguments, whatever bytes they hold:
-- nothing stands outside quotes but spaces between the arguments and escaped quotes.
pub words-encode_posix_command :
    (args : List Bytes) → words between (encode_posix_command args) ≡ some args
unfolding encode_posix_command
words-encode_posix_command [] = unfold words in refl
words-encode_posix_command (a ∷ args) = arg-between a (encode_more args) ∙ more-unquoted a args
