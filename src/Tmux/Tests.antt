-- ===== src/Tmux/Tests.antt =====
-- The theorems on tmux at concrete inputs. `toy` is a server whose state is the list of its sessions.
use visual_tmux_client.Prelude.{
  ℕ, ◌≡◌, refl, ap, inl, inr, Bool, not, ◌&&◌, List, [], ◌∷◌, none, Bytes, bytes_eq, codes, any,
  keep, arith, ◌==◌, if◌then◌else◌, Bool-cases, some,
}
use visual_tmux_client.Prelude.Int.{pos, int_eq}
use visual_tmux_client.Session.Service.{Action}
use visual_tmux_client.Tmux.Env.{child_env}
use visual_tmux_client.Tmux.Env.Scrubbing.{IsScrubbed, child_env-IsScrubbed}
use visual_tmux_client.Tmux.Panes.{parse_panes, parse_loop}
use visual_tmux_client.Tmux.Panes.Framing.{IsRecord, print_records, panes_of}
use visual_tmux_client.Tmux.Panes.RoundTrip.{parse_panes-print, parse_loop_fuel}
use visual_tmux_client.Tmux.Process.{new_process, exited}
use visual_tmux_client.Tmux.Process.Once.{
  Use, reads, resizes, closes, detaches, waits, use_all, IsTidy, use_all-new_process,
}
use visual_tmux_client.Tmux.Sessions.{parse_sessions}
use visual_tmux_client.Tmux.Sessions.RoundTrip.{
  Listed, IsListed, print_lines, sessions_for, parse_sessions-print,
}
use visual_tmux_client.Tmux.Client.{Client, Ran, ran, exec, succeeded, client_has, client_rename}
use visual_tmux_client.Tmux.Client.Server.{IsServer, Renamed, command_on, client_rename-Renamed}

-- A pane whose title holds a line ending and the beginning of another record.
abbrev values : List Bytes
values =
    codes "work"
    ∷ codes "0"
    ∷ codes "1"
    ∷ codes "1"
    ∷ codes "1"
    ∷ codes "0"
    ∷ codes "w"
    ∷ (10 ∷ codes "4:evil1:0")
    ∷ codes "vim"
    ∷ []

values-IsRecord : IsRecord values
values-IsRecord = record { nine = refl; fit = ground arith }

parse_panes-print_example :
    parse_panes (print_records (values ∷ values ∷ [])) ≡ panes_of (values ∷ values ∷ [])
parse_panes-print_example =
    parse_panes-print (values ∷ values ∷ []) (values-IsRecord, (values-IsRecord, tt))

parse_loop_fuel_example : parse_loop 9 (codes "1:a") ≡ some (parse_panes (codes "1:a"))
parse_loop_fuel_example = parse_loop_fuel 9 (codes "1:a") (omega arith)

-- A session whose name holds the separator.
abbrev barred : Listed
barred = record { name = codes "a|b"; windows = 2; attached = 0; created = 1_700_000_000 }

barred-IsListed : IsListed barred
barred-IsListed = record { one_line = ground arith; fits = ground arith }

parse_sessions-print_example :
    parse_sessions (print_lines (barred ∷ barred ∷ [])) ≡ sessions_for (barred ∷ barred ∷ [])
parse_sessions-print_example =
    parse_sessions-print (barred ∷ barred ∷ []) (barred-IsListed, (barred-IsListed, tt))

abbrev has_name : List Bytes → Bytes → Bool
has_name names n = any (λ m. m == n) names

abbrev drop_name : Bytes → List Bytes → List Bytes
drop_name name names = keep (λ m. not (m == name)) names

abbrev toy_command : Bytes → Bytes → List Bytes → Action (List Bytes) Ran
toy_command cmd name [] names =
    if cmd == codes "has-session"
    then (names, ran [] [] (if has_name names name then pos 0 else pos 1))
    else (drop_name name names, ran [] [] (pos 0))
toy_command cmd name (dashes ∷ []) names = (names, ran [] [] (pos 1))
toy_command cmd name (dashes ∷ new ∷ more) names = (new ∷ drop_name name names, ran [] [] (pos 0))

abbrev toy_tmux : List Bytes → Action (List Bytes) Ran
toy_tmux (cmd ∷ dash ∷ (equals ∷ name) ∷ more) names = toy_command cmd name more names
toy_tmux _ names = (names, ran [] [] (pos 1))

abbrev toy : Client (List Bytes)
toy = record {
  broken = none;
  socket = [];
  tmux = toy_tmux;
  home = codes "/";
  base = codes "session-20260101-000000";
}

toy_has : (name : Bytes) (w : List Bytes) → client_has toy name w ≡ (w, has_name w name)
unfolding client_has
toy_has name w = elim (Bool-cases (has_name w name)) [
  | inl there ↦ rw there
  | inr missing ↦ rw missing
]

toy_checks :
    (name : Bytes) (w : List Bytes)
    → ((exec toy (command_on (codes "has-session") name []) w).0 ≡ w)
      × (succeeded (exec toy (command_on (codes "has-session") name []) w).1 ≡ has_name w name)
unfolding exec
toy_checks name w = elim (Bool-cases (has_name w name)) [
  | inl there ↦ rw there (refl, refl)
  | inr missing ↦ rw missing (refl, refl)
]

has_name-drop_name :
    (name n : Bytes) (w : List Bytes)
    → has_name (drop_name name w) n ≡ (has_name w n && not (n == name))
has_name-drop_name name n [] = refl
has_name-drop_name name n (m ∷ w) = ground (
  arith,
  has_name-drop_name name n w,
  bytes_eq.matches_iff m name,
  bytes_eq.matches_iff m n,
  bytes_eq.matches_iff n name,
)

same_either_way : (a b : Bytes) → (a == b) ≡ (b == a)
same_either_way a b = ground (arith, bytes_eq.matches_iff a b, bytes_eq.matches_iff b a)

toy-IsServer : IsServer toy has_name
unfolding exec
toy-IsServer = record {
  working = refl;
  checks = toy_checks;
  kills = λ name w h. (refl, λ n. has_name-drop_name name n w);
  renames = λ old new w h k. (refl, λ n. rw (same_either_way new n, has_name-drop_name old n w));
}

client_rename-Renamed_example :
    Renamed
      (has_name (codes "a" ∷ codes "b" ∷ []))
      (has_name (client_rename toy (codes "a") (codes "c") (codes "a" ∷ codes "b" ∷ [])).0)
      (codes "a")
      (codes "c")
      (client_rename toy (codes "a") (codes "c") (codes "a" ∷ codes "b" ∷ [])).1
client_rename-Renamed_example =
    client_rename-Renamed toy has_name (codes "a") (codes "c") (codes "a" ∷ codes "b" ∷ [])
      toy-IsServer

-- A server that always says that it has the two first candidates.
abbrev two : List Bytes
two = codes "s" ∷ codes "s-1" ∷ []

abbrev two_taken : Client ℕ
two_taken = record {
  broken = none;
  socket = [];
  tmux = λ args n. (n, (toy_tmux args two).1);
  home = codes "/";
  base = codes "s";
}

two_taken-checks : (name : Bytes) (w : ℕ) → client_has two_taken name w ≡ (w, has_name two name)
unfolding client_has
two_taken-checks name w = ap (λ (p : List Bytes × Bool). (w, p.1)) (toy_has name two)

abbrev hub_env : List Bytes
hub_env = codes "HOME=/root" ∷ codes "VISUAL_TMUX_CLIENT_TOKEN=secret" ∷ codes "LANG=C" ∷ []

child_env-IsScrubbed_example : IsScrubbed hub_env (child_env hub_env)
child_env-IsScrubbed_example = child_env-IsScrubbed hub_env

abbrev some_uses : List Use
some_uses =
    reads
    ∷ closes
    ∷ resizes (pos 80) (pos 24)
    ∷ detaches
    ∷ waits (exited (pos 0))
    ∷ waits (exited (pos 1))
    ∷ []

use_all-new_process_example : IsTidy (use_all new_process some_uses)
use_all-new_process_example = use_all-new_process some_uses
