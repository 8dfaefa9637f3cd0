-- ===== src/Host/Trim.antt =====
-- strings.TrimSpace, which the host registry applies to names, addresses and user names.
use visual_tmux_client.Prelude.{ℕ, zero, suc, ◌-◌, Bool, true, ◌&&◌, [], ◌∷◌, Bytes, if◌then◌else◌}
use visual_tmux_client.Prelude.Utf8.{decode}
use visual_tmux_client.Session.Validation.{is_space}

-- Behind `k` bytes that belong to the rune before them.
unfoldable pub trim_start : ℕ → Bytes → Bytes
unfolding decode
trim_start k [] = []
trim_start zero (b ∷ s) =
    let rest = trim_start ((decode b s).width - 1) s in
    if is_space (decode b s).rune then rest else b ∷ s
trim_start (suc k) (b ∷ s) = trim_start k s

unfoldable pub is_blank : ℕ → Bytes → Bool
unfolding decode
is_blank k [] = true
is_blank zero (b ∷ s) = is_space (decode b s).rune && is_blank ((decode b s).width - 1) s
is_blank (suc k) (b ∷ s) = is_blank k s

unfoldable pub trim_end : ℕ → Bytes → Bytes
unfolding decode is_blank
trim_end k [] = []
trim_end zero (b ∷ s) =
    let rest = trim_end ((decode b s).width - 1) s in if is_blank zero (b ∷ s) then [] else b ∷ rest
trim_end (suc k) (b ∷ s) = b ∷ trim_end k s

unfoldable pub trim_space : Bytes → Bytes
unfolding trim_start trim_end
trim_space s = trim_end 0 (trim_start 0 s)
