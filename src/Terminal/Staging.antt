-- ===== src/Terminal/Staging.antt =====
-- hub/internal/terminal/staging.go: the buffer that holds output until the peer is ready. A call is
-- one critical section of the buffer's mutex.
pub mod Eviction
use visual_tmux_client.Prelude.{
  ℕ, suc, ◌+◌, ◌-◌, ◌*◌, List, [], ◌∷◌, ◌++◌, Bytes, length, ltb, is_empty, if◌then◌else◌,
}
use visual_tmux_client.Prelude.Int.{ℤ, pos, negsuc, leb_ℤ, pos_part}

pub record StagingBuffer : Type 0 where
  pub chunks : List Bytes
  pub size : ℕ
  pub cap : ℕ

abbrev pub default_staging_capacity : ℕ
default_staging_capacity = 2 * 1024 * 1024

unfoldable pub new_staging_buffer : ℤ → StagingBuffer
new_staging_buffer capacity = record {
  chunks = [];
  size = 0;
  cap = if leb_ℤ capacity (pos 0) then default_staging_capacity else pos_part capacity;
}

-- The loop of `Write` that drops the oldest chunks, with `n` bytes to come.
unfoldable pub evict : ℕ → ℕ → ℕ → List Bytes → List Bytes × ℕ
evict cap n size [] = ([], size)
evict cap n size (c ∷ cs) =
    let rest = evict cap n (size - length c) cs in
    if ltb cap (size + n) then rest else (c ∷ cs, size)

unfoldable pub write : StagingBuffer → Bytes → StagingBuffer × ℕ
unfolding evict
write b [] = (b, 0)
write b (x ∷ p) =
    let n = length (x ∷ p) in
    let kept = evict b.cap n b.size b.chunks in
    (record b { chunks = kept.0 ++ (x ∷ p) ∷ []; size = kept.1 + n }, n)

unfoldable pub drain : StagingBuffer → StagingBuffer × List Bytes
drain b = (record b { chunks = []; size = 0 }, b.chunks)
