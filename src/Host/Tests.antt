-- ===== src/Host/Tests.antt =====
-- The encoding of a command line with a quote and a substitution in it.
use visual_tmux_client.Prelude.{◌≡◌, List, [], ◌∷◌, some, Bytes, codes}
use visual_tmux_client.Host.Encoder.{encode_posix_command}
use visual_tmux_client.Host.Encoder.Shell.{words, between, words-encode_posix_command}

abbrev hostile : List Bytes
hostile = codes "tmux" ∷ [] ∷ codes "it's $(rm -rf /)" ∷ []

words-encode_posix_command_example : words between (encode_posix_command hostile) ≡ some hostile
words-encode_posix_command_example = words-encode_posix_command hostile
