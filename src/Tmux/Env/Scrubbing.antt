-- ===== src/Tmux/Env/Scrubbing.antt =====
-- No secret of the hub reaches a process that it starts (hub/internal/tmux/env.go).
use mathlib.Core.List.{Memᴰ}
use visual_tmux_client.Prelude.{
  ℕ, ◌≡◌, refl, sym, ◌&&◌, ◌||◌, true, ◌==◌, bytes_eq, nat_eq, arith, has_prefix, index_byte,
  Option-cases, if◌then◌else◌, ap, ◌∙◌, inl, inr, Bool, false, List, [], ◌∷◌, ◌++◌, Bytes, codes,
  All, All-append, Bool-cases,
}
use visual_tmux_client.Tmux.Env.{key_of, in_set, filter_env, child_env, secrets}

-- Whether an entry of an environment sets the variable: `name`, or `name=` and a value.
abbrev pub sets : Bytes → Bytes → Bool
sets name kv = kv == name || has_prefix kv (name ++ codes "=")

-- The token of the hub, and what tells of a surrounding tmux.
abbrev pub is_secret : Bytes → Bool
is_secret kv =
    sets (codes "TMUX") kv
    || (sets (codes "TMUX_PANE") kv || sets (codes "VISUAL_TMUX_CLIENT_TOKEN") kv)

key_of-cons : (c : ℕ) (kv : Bytes) → key_of (c ∷ kv) ≡ (if c == b'=' then [] else c ∷ key_of kv)
unfolding key_of
key_of-cons c kv = elim (Bool-cases (c == b'=')) [
  | inl here ↦ rw here refl
  | inr other ↦
      rw other
        (elim (Option-cases (index_byte kv b'=')) [ inl e ↦ rw e refl | inr (i, e) ↦ rw e refl ])
]

-- The key of an entry is the name of the variable that it sets.
key_of-sets :
    (name kv : Bytes) → All (λ c. (c == b'=') ≡ false) name → (name == key_of kv) ≡ sets name kv
key_of-sets [] [] h = unfold key_of in refl
key_of-sets [] (c ∷ kv) h = rw (key_of-cons c kv) (ground arith)
key_of-sets (x ∷ name) [] h = unfold key_of in refl
key_of-sets (x ∷ name) (c ∷ kv) h = rw (key_of-cons c kv) (elim (Bool-cases (c == b'=')) [
  | inl here ↦ let apart : (c == x) ≡ false = ground (arith, here, h.0) in rw (here, apart) refl
  | inr other ↦
      let turned : (x == c) ≡ (c == x) = ground arith in
      rw (other, turned, key_of-sets name kv h.1) (shared (c == x))
])
  where
    shared :
        (b : Bool)
        → (b && sets name kv) ≡ (b && (kv == name) || b && has_prefix kv (name ++ codes "="))
    shared true = refl
    shared false = refl

in_set-is_secret : (kv : Bytes) → in_set secrets (key_of kv) ≡ is_secret kv
in_set-is_secret kv =
    rw
      (
        key_of-sets (codes "TMUX") kv (ground arith),
        key_of-sets (codes "TMUX_PANE") kv (ground arith),
        key_of-sets (codes "VISUAL_TMUX_CLIENT_TOKEN") kv (ground arith),
      )
      (padded (sets (codes "TMUX") kv) (sets (codes "TMUX_PANE") kv)
        (sets (codes "VISUAL_TMUX_CLIENT_TOKEN") kv))
  where
    padded : (a b c : Bool) → (a || (b || (c || false))) ≡ (a || (b || c))
    padded a b c = ground arith

module _ (names : List Bytes) where
  none_dropped :
      (env : List Bytes) → All (λ kv. in_set names (key_of kv) ≡ false) (filter_env names env)
  unfolding filter_env
  none_dropped [] = tt
  none_dropped (kv ∷ env) = elim (Bool-cases (in_set names (key_of kv))) [
    | inl gone ↦ rw gone (none_dropped env)
    | inr stays ↦ rw stays (stays, none_dropped env)
  ]

  others_stay :
      (env : List Bytes) (kv : Bytes)
      → Memᴰ kv env
      → in_set names (key_of kv) ≡ false
      → Memᴰ kv (filter_env names env)
  unfolding filter_env
  others_stay [] kv m h = elim m [ ]
  others_stay (x ∷ env) kv (Memᴰ.head e) h =
      let stays : in_set names (key_of x) ≡ false = ap (λ y. in_set names (key_of y)) (sym e) ∙ h in
      rw stays (Memᴰ.head e)
  others_stay (x ∷ env) kv (Memᴰ.tail m) h = elim (Bool-cases (in_set names (key_of x))) [
    | inl gone ↦ rw gone (others_stay env kv m h)
    | inr stays ↦ rw stays (Memᴰ.tail (others_stay env kv m h))
  ]

-- The environment of a process, beside the one of the hub.
pub record IsScrubbed (env out : List Bytes) : Type 0 where
  pub no_secret : All (λ kv. is_secret kv ≡ false) out
  pub rest : (kv : Bytes) → Memᴰ kv env → is_secret kv ≡ false → Memᴰ kv out
  -- and the terminal is said to be one of 256 colours
  pub terminal : Memᴰ (codes "TERM=xterm-256color") out

Mem-append : (kv : Bytes) (xs ys : List Bytes) → Memᴰ kv xs → Memᴰ kv (xs ++ ys)
Mem-append kv [] ys m = elim m [ ]
Mem-append kv (x ∷ xs) ys (Memᴰ.head e) = Memᴰ.head e
Mem-append kv (x ∷ xs) ys (Memᴰ.tail m) = Memᴰ.tail (Mem-append kv xs ys m)

secret_free :
    (env : List Bytes)
    → All (λ kv. in_set secrets (key_of kv) ≡ false) env
    → All (λ kv. is_secret kv ≡ false) env
secret_free [] h = tt
secret_free (kv ∷ env) h = (sym (in_set-is_secret kv) ∙ h.0, secret_free env h.1)

last_Mem : (kv : Bytes) (xs : List Bytes) → Memᴰ kv (xs ++ kv ∷ [])
last_Mem kv [] = Memᴰ.head refl
last_Mem kv (x ∷ xs) = Memᴰ.tail (last_Mem kv xs)

-- The environment of a session process has no entry that sets VISUAL_TMUX_CLIENT_TOKEN, TMUX or
-- TMUX_PANE, it has every other entry of the hub's environment, and it has TERM=xterm-256color.
pub child_env-IsScrubbed : (env : List Bytes) → IsScrubbed env (child_env env)
unfolding child_env
child_env-IsScrubbed env = record {
  no_secret =
      All-append _ (filter_env secrets env) (codes "TERM=xterm-256color" ∷ [])
        (secret_free (filter_env secrets env) (none_dropped secrets env)) (refl, tt);
  rest = λ kv m h.
      Mem-append kv (filter_env secrets env) _
        (others_stay secrets env kv m (in_set-is_secret kv ∙ h));
  terminal = last_Mem (codes "TERM=xterm-256color") (filter_env secrets env);
}
