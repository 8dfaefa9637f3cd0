-- ===== src/Terminal/Attachment/Races.antt =====
-- Two schedules in which the goroutines of an attachment get in one another's way.
use visual_tmux_client.Prelude.{
  ◌≡◌, ◌∙◌, Bool, true, false, List, [], ◌∷◌, some, Bytes, codes, arith, any, bytes_eq,
}
use visual_tmux_client.Prelude.Int.{ℤ, pos, ltb_ℤ, ◌≤ℤ◌, ◌-ℤ◌}
use visual_tmux_client.Terminal.Options.{Options}
use visual_tmux_client.Terminal.Effect.{sent, proc_resize}
use visual_tmux_client.Terminal.Attachment.{
  Attachment, Env, new_attachment, emit, handle_control, apply_resize,
}
use visual_tmux_client.Terminal.Attachment.Order.{nothing_sent}
use visual_tmux_client.Terminal.Attachment.Delivery.{run-InOrder}
use visual_tmux_client.Terminal.Attachment.Dimensions.{
  Size, IsWithin, size_of, proc_size, proc_size-append,
}
use visual_tmux_client.Terminal.Attachment.System.{
  System, Writer, flushed, text, Event, message, measure, shrink, restore, step, run, start,
  receive, start_step,
}
use visual_tmux_client.Terminal.Attachment.Quiet.{is_flush, run-unready, run-stopped}

-- If `writePump` of a new attachment has returned before `Start` flushes the staging buffer, then no
-- output of the process is ever sent, whatever it has put out, and whatever follows.
pub early_exit_loses_output :
    (env : Env) (opts : Options) (session : Bytes) (cols rows : ℤ) (owned watched : Bool)
    (es later : List Event)
    → any is_flush es ≡ false
    → (run env (start (new_attachment opts session cols rows owned watched)) es).writer
      ≡ Writer.stopped
    → let s = run env (start (new_attachment opts session cols rows owned watched)) es in
      sent (run env s later).att.log ≡ []
unfolding start new_attachment
early_exit_loses_output env opts session cols rows owned watched es later h w =
    let first = start (new_attachment opts session cols rows owned watched) in
    let (k, order) = run-InOrder env opts session cols rows owned watched es in
    run-stopped env (run env first es) later w
    ∙ (nothing_sent (run env first es).att k order (run-unready env first es h)).0

-- The schedule of the race: the size is read, the process is shrunk, a message comes, and the
-- process is given the size that was read.
abbrev pub crossing : Bytes → List Event
crossing d = measure ∷ shrink ∷ message (text d) ∷ restore ∷ []

crossed :
    (env : Env) (s : System) (d : Bytes)
    → s.starter ≡ flushed
    → s.input_open ≡ true
    → pos 2 ≤ℤ s.att.rows
    → (run env s (crossing d)).att
      ≡ emit
          (handle_control env (emit s.att (proc_resize s.att.cols (s.att.rows -ℤ pos 1))) d)
          (proc_resize s.att.cols s.att.rows)
unfolding run step start_step receive
crossed env s d here is_open rows_ok =
    let tall : ltb_ℤ s.att.rows (pos 2) ≡ false = ground arith in rw (here, tall, is_open)

resize_message :
    (env : Env) (a : Attachment) (d : Bytes) (c r : ℤ)
    → IsWithin a.opts.max_dimension c
    → IsWithin a.opts.max_dimension r
    → env.unmarshal d ≡ some (record { type = codes "resize"; cols = c; rows = r })
    → size_of (handle_control env a d) ≡ record { width = c; height = r }
unfolding handle_control apply_resize
resize_message env a d c r c_ok r_ok e = rw (e, handle_control) (ground arith)

-- If `forceRepaint` reads a size of at least two rows and shrinks the process, then one message is
-- handled that asks for a size `c` by `r` within the bounds, and then `forceRepaint` makes its last
-- call of `Resize`, the attachment has the size `c` by `r`, and the process the one that was read.
pub repaint_race :
    (first : Size) (env : Env) (s : System) (d : Bytes) (c r : ℤ)
    → s.starter ≡ flushed
    → s.input_open ≡ true
    → pos 2 ≤ℤ s.att.rows
    → IsWithin s.att.opts.max_dimension c
    → IsWithin s.att.opts.max_dimension r
    → env.unmarshal d ≡ some (record { type = codes "resize"; cols = c; rows = r })
    → let a = (run env s (crossing d)).att in
      (size_of a ≡ record { width = c; height = r }) × (proc_size first a.log ≡ size_of s.att)
repaint_race first env s d c r here is_open rows_ok c_ok r_ok e =
    let b = emit s.att (proc_resize s.att.cols (s.att.rows -ℤ pos 1)) in
    rw (crossed env s d here is_open rows_ok) (
      resize_message env b d c r c_ok r_ok e,
      proc_size-append first (handle_control env b d).log (proc_resize s.att.cols s.att.rows ∷ []),
    )
