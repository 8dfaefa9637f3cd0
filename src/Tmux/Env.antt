-- ===== src/Tmux/Env.antt =====
-- hub/internal/tmux/env.go: the environment of the processes that the hub starts. The environment of
-- the hub itself is an argument.
pub mod Scrubbing
use visual_tmux_client.Prelude.{
  ℕ, Bool, List, [], ◌∷◌, ◌++◌, Option, none, some, Bytes, bytes_eq, codes, any, take, index_byte,
  ◌==◌, if◌then◌else◌,
}

abbrev key_until : Bytes → Option ℕ → Bytes
key_until kv none = kv
key_until kv (some i) = take i kv

unfoldable pub key_of : Bytes → Bytes
key_of kv = key_until kv (index_byte kv b'=')

-- _, ok := dropSet[key]
abbrev pub in_set : List Bytes → Bytes → Bool
in_set names key = any (λ d. d == key) names

unfoldable pub filter_env : List Bytes → List Bytes → List Bytes
unfolding key_of
filter_env names [] = []
filter_env names (kv ∷ env) =
    let rest = filter_env names env in if in_set names (key_of kv) then rest else kv ∷ rest

abbrev pub secrets : List Bytes
secrets = codes "TMUX" ∷ codes "TMUX_PANE" ∷ codes "VISUAL_TMUX_CLIENT_TOKEN" ∷ []

unfoldable pub scrubbed_env : List Bytes → List Bytes
unfolding filter_env
scrubbed_env env = filter_env secrets env

unfoldable pub child_env : List Bytes → List Bytes
unfolding scrubbed_env
child_env env = scrubbed_env env ++ codes "TERM=xterm-256color" ∷ []
