-- ===== src/Host/Encoder.antt =====
-- hub/internal/host/encoder.go: arguments as a command line of a POSIX shell.
pub mod Shell
use visual_tmux_client.Prelude.{
  ℕ, List, [], ◌∷◌, ◌++◌, Bytes, codes, ◌==◌, nat_eq, is_empty, if◌then◌else◌,
}

abbrev pub quote : ℕ
quote = 39

abbrev pub backslash : ℕ
backslash = 92

abbrev pub space : ℕ
space = 32

-- strings.ReplaceAll, from a quote to quote, backslash, quote, quote
unfoldable pub replace_quotes : Bytes → Bytes
replace_quotes [] = []
replace_quotes (c ∷ s) =
    let rest = replace_quotes s in
    if c == quote then quote ∷ backslash ∷ quote ∷ quote ∷ rest else c ∷ rest

unfoldable pub encode_posix_arg : Bytes → Bytes
unfolding replace_quotes
encode_posix_arg arg =
    if is_empty arg then quote ∷ quote ∷ [] else (quote ∷ []) ++ replace_quotes arg ++ (quote ∷ [])

-- The arguments after the first one.
unfoldable pub encode_more : List Bytes → Bytes
unfolding encode_posix_arg
encode_more [] = []
encode_more (a ∷ args) = space ∷ (encode_posix_arg a ++ encode_more args)

unfoldable pub encode_posix_command : List Bytes → Bytes
unfolding encode_more
encode_posix_command [] = []
encode_posix_command (a ∷ args) = encode_posix_arg a ++ encode_more args
