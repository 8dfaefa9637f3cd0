-- ===== src/Terminal/Attachment.antt =====
-- hub/internal/terminal/attachment.go: one attachment, as the sequential code of each of its calls.
-- `log` records the calls to the process, the peer and the owner, the oldest first.
pub mod Calls
pub mod System
pub mod Input
pub mod Lifecycle
pub mod Letting
pub mod Later
pub mod Frame
pub mod Order
pub mod Delivery
pub mod Memory
pub mod Dimensions
pub mod Quiet
pub mod Races
pub mod Settling
pub mod Endings
mod Tests
use visual_tmux_client.Prelude.{
  ℕ, zero, suc, ◌-◌, Bool, true, false, ◌||◌, List, [], ◌∷◌, ◌++◌, Option, none, some, Bytes, codes,
  length, take, drop, ltb, ◌==◌, bytes_eq, if◌then◌else◌,
}
use visual_tmux_client.Prelude.Int.{ℤ, pos, negsuc, pos_part, ltb_ℤ, leb_ℤ, ◌-ℤ◌}
use visual_tmux_client.Terminal.Options.{Options}
use visual_tmux_client.Terminal.Staging
use visual_tmux_client.Terminal.Staging.{StagingBuffer, new_staging_buffer}
use visual_tmux_client.Terminal.Queue.{
  OutputQueue, new_output_queue, push, close_with_exit, close_abnormal, get_exit_code,
}
use visual_tmux_client.Terminal.Effect.{
  Effect, ClientMessage, proc_read, proc_write, proc_resize, proc_close, proc_wait, proc_detach,
  send_pong, send_exit, peer_close, peer_close_now, resized, untracked,
}

pub record Attachment : Type 0 where
  pub host_id : Bytes
  pub epoch : ℕ
  pub opts : Options
  pub session : Bytes
  -- whether the callbacks `untrack` and `onResize` are there
  pub has_untrack : Bool
  pub has_on_resize : Bool
  -- `ctx` is cancelled
  pub cancelled : Bool
  pub cols : ℤ
  pub rows : ℤ
  pub ready : Bool
  pub stage : StagingBuffer
  pub queue : OutputQueue
  -- `once` has run
  pub finished : Bool
  pub log : List Effect

-- What the surroundings of an attachment answer, given all that it has done before: whether the
-- context is found cancelled, whether a write to the process succeeds, and how a control message is
-- decoded.
pub record Env : Type 0 where
  pub cancels : List Effect → Bool
  pub accepts : List Effect → Bytes → Bool
  pub unmarshal : Bytes → Option ClientMessage

unfoldable pub new_attachment : Options → Bytes → ℤ → ℤ → Bool → Bool → Attachment
new_attachment opts session cols rows has_untrack has_on_resize = record {
  host_id = [];
  epoch = 0;
  opts = opts;
  session = session;
  has_untrack = has_untrack;
  has_on_resize = has_on_resize;
  cancelled = false;
  cols = cols;
  rows = rows;
  ready = false;
  stage = new_staging_buffer opts.staging_buffer_bytes;
  queue = new_output_queue opts.output_high_water_bytes opts.output_low_water_bytes;
  finished = false;
  log = [];
}

unfoldable pub with_host : Attachment → Bytes → Attachment
with_host a host = record a { host_id = host }

unfoldable pub with_epoch : Attachment → ℕ → Attachment
with_epoch a epoch = record a { epoch = epoch }

abbrev pub emit : Attachment → Effect → Attachment
emit a e = record a { log = a.log ++ e ∷ [] }

abbrev pub cancel : Attachment → Attachment
cancel a = record a { cancelled = true }

-- once.Do
unfoldable pub finish : Attachment → Attachment
finish a =
    if a.finished
    then a
    else let b = record a { finished = true; cancelled = true } in
      if a.has_untrack then emit b untracked else b

pub push_all : OutputQueue → List Bytes → OutputQueue
push_all q [] = q
push_all q (c ∷ cs) = push_all (push q c) cs

unfoldable pub mark_ready_and_flush : Attachment → Attachment
unfolding push_all
mark_ready_and_flush a =
    let (b, chunks) = Staging.drain a.stage in
    record a { ready = true; stage = b; queue = push_all a.queue chunks }

unfoldable pub deliver : Attachment → Bytes → Attachment
deliver a b =
    if a.ready
    then record a { queue = push a.queue b }
    else record a { stage = (Staging.write a.stage b).0 }

unfoldable pub apply_resize : Attachment → ℤ → ℤ → Attachment
apply_resize a cols rows =
    if ltb_ℤ cols (pos 1)
      || ltb_ℤ a.opts.max_dimension cols
      || ltb_ℤ rows (pos 1)
      || ltb_ℤ a.opts.max_dimension rows
    then a
    else let b = record (emit a (proc_resize cols rows)) { cols = cols; rows = rows } in
      if a.has_on_resize then emit b (resized cols rows) else b

unfoldable pub force_repaint : Attachment → Attachment
force_repaint a =
    if ltb_ℤ a.rows (pos 2)
    then a
    else emit (emit a (proc_resize a.cols (a.rows -ℤ pos 1))) (proc_resize a.cols a.rows)

abbrev pub chunk_size : Options → ℕ
chunk_size opts =
    if leb_ℤ opts.input_chunk_size (pos 0) then 32_768 else pos_part opts.input_chunk_size

module _ (env : Env) where
  -- The loop of `writeInput`, on fuel.
  unfoldable pub write_loop : ℕ → ℕ → Bytes → Attachment → Attachment
  write_loop zero n data_ a = a
  write_loop (suc f) n [] a = a
  write_loop (suc f) n (x ∷ d) a =
      let piece = take n (x ∷ d) in
      let b = emit a (proc_write piece) in
      let rest = write_loop f n (drop n (x ∷ d)) b in
      if a.cancelled || env.cancels a.log then a else if env.accepts a.log piece then rest else b

  unfoldable pub write_input : Attachment → Bytes → Attachment
  unfolding write_loop
  write_input a d = write_loop (length d) (chunk_size a.opts) d a

  unfoldable pub handle_control : Attachment → Bytes → Attachment
  handle_control a d = elim (env.unmarshal d) [
    | none ↦ a
    | some msg ↦
        if msg.type == codes "resize"
        then apply_resize a msg.cols msg.rows
        else if msg.type == codes "ping"
        then emit a send_pong
        else a
  ]
