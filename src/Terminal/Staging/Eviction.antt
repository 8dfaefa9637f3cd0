-- ===== src/Terminal/Staging/Eviction.antt =====
-- What a write into the staging buffer keeps, and what it drops.
use visual_tmux_client.Prelude.{
  ℕ, zero, suc, ◌+◌, ◌-◌, ◌≤◌, ◌<◌, ◌≡◌, ◌≢◌, ◌⊎◌, inl, inr, refl, List, [], ◌∷◌, ◌++◌, Bytes,
  length, drop, arith, ltb, Bool-cases, ap,
}
use visual_tmux_client.Terminal.Staging.{StagingBuffer, evict, write, drain}

-- The bytes that a list of chunks holds.
abbrev pub total : List Bytes → ℕ
total [] = 0
total (c ∷ cs) = length c + total cs

pub total-append : (xs ys : List Bytes) → total (xs ++ ys) ≡ total xs + total ys
total-append [] ys = omega arith
total-append (x ∷ xs) ys = omega (arith, total-append xs ys)

pub total-drop-le : (k : ℕ) (xs : List Bytes) → total (drop k xs) ≤ total xs
total-drop-le zero xs = omega arith
total-drop-le (suc k) [] = omega arith
total-drop-le (suc k) (x ∷ xs) = omega (arith, total-drop-le k xs)

-- The recorded size is the true one, and the buffer is within its capacity unless it holds one
-- chunk, which alone may be larger.
pub record IsValid (b : StagingBuffer) : Type 0 where
  pub counted : b.size ≡ total b.chunks
  pub fits : (b.size ≤ b.cap) ⊎ (length b.chunks ≡ 1)

-- `k` chunks are dropped from the front: each was dropped while the rest and the `n` bytes to come
-- did not fit, and then they fit or nothing is left.
pub record Evicts (cap n : ℕ) (cs : List Bytes) (kept : List Bytes) (size : ℕ) (k : ℕ)
    : Type 0 where
  pub kept_is : kept ≡ drop k cs
  pub within : k ≤ length cs
  pub size_is : size ≡ total kept
  pub needed : (j : ℕ) → j < k → cap < total (drop j cs) + n
  pub enough : (kept ≡ []) ⊎ (size + n ≤ cap)

needed-cons :
    (cap n : ℕ) (c : Bytes) (cs : List Bytes) (k : ℕ)
    → cap < total (c ∷ cs) + n
    → ((j : ℕ) → j < k → cap < total (drop j cs) + n)
    → (j : ℕ) → j < suc k
    → cap < total (drop j (c ∷ cs)) + n
needed-cons cap n c cs k first later zero lt = first
needed-cons cap n c cs k first later (suc j) lt = later j (omega arith)

pub evict-Evicts :
    (cap n size : ℕ) (cs : List Bytes)
    → size ≡ total cs
    → (k : ℕ) × Evicts cap n cs (evict cap n size cs).0 (evict cap n size cs).1 k
unfolding evict
evict-Evicts cap n size [] h = (
  0,
  record {
    kept_is = refl;
    within = omega arith;
    size_is = h;
    needed = λ j lt. elim lt [ ];
    enough = inl refl;
  },
)
evict-Evicts cap n size (c ∷ cs) h = elim (Bool-cases (ltb cap (size + n))) [
  | inr room ↦ (
    0,
    record {
      kept_is = ground arith;
      within = omega arith;
      size_is = ground arith;
      needed = λ j lt. elim lt [ ];
      enough = ground arith;
    },
  )
  | inl full ↦
      let (k, ev) = evict-Evicts cap n (size - length c) cs (omega arith) in
      (
        suc k,
        record {
          kept_is = rw full ev.kept_is;
          within = omega (arith, ev.within);
          size_is = rw full ev.size_is;
          needed = needed-cons cap n c cs k (ground arith) ev.needed;
          enough = rw full ev.enough;
        },
      )
]

-- A write of `p` drops `k` chunks from the front and appends `p` whole.
pub record Writes (b : StagingBuffer) (p : Bytes) (b' : StagingBuffer) (k : ℕ) : Type 0 where
  pub chunks_are : b'.chunks ≡ drop k b.chunks ++ p ∷ []
  pub within : k ≤ length b.chunks
  pub same_cap : b'.cap ≡ b.cap
  pub minimal : (j : ℕ) → j < k → b.cap < total (drop j b.chunks) + length p
  pub enough : (drop k b.chunks ≡ []) ⊎ (total (drop k b.chunks) + length p ≤ b.cap)

pub write-Writes :
    (b : StagingBuffer) (p : Bytes) → IsValid b → p ≢ [] → (k : ℕ) × Writes b p (write b p).0 k
unfolding write
write-Writes b [] v ne = absurd (ne refl)
write-Writes b (x ∷ p) v ne =
    let (k, ev) = evict-Evicts b.cap (length (x ∷ p)) b.size b.chunks v.counted in
    (
      k,
      record {
        chunks_are = ap (λ (l : List Bytes). l ++ (x ∷ p) ∷ []) ev.kept_is;
        within = ev.within;
        same_cap = refl;
        minimal = ev.needed;
        enough = ground (arith, ev.kept_is, ev.size_is, ev.enough, ap total ev.kept_is);
      },
    )

pub write-IsValid : (b : StagingBuffer) (p : Bytes) → IsValid b → IsValid (write b p).0
unfolding write
write-IsValid b [] v = v
write-IsValid b (x ∷ p) v =
    let (k, ev) = evict-Evicts b.cap (length (x ∷ p)) b.size b.chunks v.counted in
    let kept = evict b.cap (length (x ∷ p)) b.size b.chunks in
    record {
      counted = omega (arith, total-append kept.0 ((x ∷ p) ∷ []), ev.size_is);
      fits = ground (arith, ev.enough);
    }

pub drain-IsValid : (b : StagingBuffer) → IsValid (drain b).0
unfolding drain
drain-IsValid b = record { counted = refl; fits = inl (omega arith) }

-- Writes in turn, from the oldest.
pub write_all : StagingBuffer → List Bytes → StagingBuffer
write_all b [] = b
write_all b (p ∷ ps) = write_all (write b p).0 ps
