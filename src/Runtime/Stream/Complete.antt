-- ===== src/Runtime/Stream/Complete.antt =====
-- The output of the streaming run of crates/wasi-runtime/src/lib.rs over whole interleavings.
use ferrous_runtime.Prelude.{
  ◌≡◌, ℕ, Bool, List, ◌⊎◌, arith, inl, ◌∷◌, false, length, [], inr, ◌+◌, ◌≤◌, refl, ◌*◌, subst,
  take_all,
}
use ferrous_runtime.Pipe
use ferrous_runtime.Command.Session.{stdout, stderr, Stream}
use ferrous_runtime.Runtime.Stream.{
  start, reader_step, Phase, drain_stdout, enforce_budget, advance_epoch, guest_write,
  finish_stream, Run, drain_stderr, joined, enforce, advance,
}
use ferrous_runtime.Runtime.Stream.Invariant.{
  writes, move, moves, streamed, Move, IsFaithfulRun, pipe_of, reads, close-IsRead,
  drain_out-IsFaithfulRun, set_eof-IsRead, write-IsRead, drain_err-IsFaithfulRun, ends,
}

Phase-cases :
    (p : Phase)
    → (p ≡ drain_stdout) ⊎ ((p ≡ drain_stderr) ⊎ ((p ≡ enforce) ⊎ ((p ≡ advance) ⊎ (p ≡ joined))))
Phase-cases drain_stdout = inl refl
Phase-cases drain_stderr = inr (inl refl)
Phase-cases enforce = inr (inr (inl refl))
Phase-cases advance = inr (inr (inr (inl refl)))
Phase-cases joined = inr (inr (inr (inr refl)))

module _ (budget : ℕ) where
  enforce-IsFaithfulRun :
      (r : Run) → IsFaithfulRun budget r → IsFaithfulRun budget (enforce_budget budget r)
  unfolding enforce_budget Pipe.close
  enforce-IsFaithfulRun r v = ground (
    arith,
    v,
    close-IsRead budget r.out_pipe r.total_stdout r.out_eof v.out_read,
    close-IsRead budget r.err_pipe r.total_stderr r.err_eof v.err_read,
  )

  advance-IsFaithfulRun :
      (epoch_ticks : ℕ) (cancelled : Bool) (now : ℕ) (r : Run)
      → IsFaithfulRun budget r
      → IsFaithfulRun budget (advance_epoch epoch_ticks cancelled now r)
  unfolding advance_epoch
  advance-IsFaithfulRun epoch_ticks cancelled now r v = ground (arith, v)

  step-IsFaithfulRun :
      (epoch_ticks : ℕ) (cancelled : Bool) (now : ℕ) (r : Run)
      → IsFaithfulRun budget r
      → IsFaithfulRun budget (reader_step budget epoch_ticks cancelled now r)
  unfolding reader_step
  step-IsFaithfulRun epoch_ticks cancelled now r v = elim (Phase-cases r.phase) [
    | inl e ↦ rw (e, reader_step) (drain_out-IsFaithfulRun budget r v)
    | inr (inl e) ↦ rw (e, reader_step) (drain_err-IsFaithfulRun budget r v)
    | inr (inr (inl e)) ↦ rw (e, reader_step) (enforce-IsFaithfulRun r v)
    | inr (inr (inr (inl e))) ↦
        rw (e, reader_step) (advance-IsFaithfulRun epoch_ticks cancelled now r v)
    | inr (inr (inr (inr e))) ↦ rw (e, reader_step) v
  ]

  write-IsFaithfulRun :
      (stream : Stream) (bytes : List ℕ) (r : Run)
      → (pipe_of stream r).eof ≡ false
      → IsFaithfulRun budget r
      → IsFaithfulRun budget (guest_write stream bytes r)
  unfolding guest_write Pipe.write
  write-IsFaithfulRun stdout bytes r e v =
      ground (arith, v, write-IsRead budget r.out_pipe r.total_stdout r.out_eof bytes e v.out_read)
  write-IsFaithfulRun stderr bytes r e v =
      ground (arith, v, write-IsRead budget r.err_pipe r.total_stderr r.err_eof bytes e v.err_read)

  finish-IsFaithfulRun :
      (stream : Stream) (r : Run)
      → IsFaithfulRun budget r
      → IsFaithfulRun budget (finish_stream stream r)
  unfolding finish_stream Pipe.set_eof
  finish-IsFaithfulRun stdout r v =
      ground (arith, v, set_eof-IsRead budget r.out_pipe r.total_stdout r.out_eof v.out_read)
  finish-IsFaithfulRun stderr r v =
      ground (arith, v, set_eof-IsRead budget r.err_pipe r.total_stderr r.err_eof v.err_read)

  move-IsFaithfulRun :
      (epoch_ticks : ℕ) (m : Move) (r : Run)
      → IsFaithfulRun budget r
      → IsFaithfulRun budget (move budget epoch_ticks m r)
  unfolding move
  move-IsFaithfulRun epoch_ticks (reads cancelled now) r v =
      step-IsFaithfulRun epoch_ticks cancelled now r v
  move-IsFaithfulRun epoch_ticks (writes stream bytes) r v =
      ground (arith, v, write-IsFaithfulRun stream bytes r)
  move-IsFaithfulRun epoch_ticks (ends stream) r v = finish-IsFaithfulRun stream r v

  moves-IsFaithfulRun :
      (epoch_ticks : ℕ) (ms : List Move) (r : Run)
      → IsFaithfulRun budget r
      → IsFaithfulRun budget (moves budget epoch_ticks ms r)
  unfolding moves
  moves-IsFaithfulRun epoch_ticks [] r v = v
  moves-IsFaithfulRun epoch_ticks (m ∷ ms) r v =
      moves-IsFaithfulRun epoch_ticks ms (move budget epoch_ticks m r)
        (move-IsFaithfulRun epoch_ticks m r v)

  start-IsFaithfulRun : (now : ℕ) → IsFaithfulRun budget (start budget now)
  unfolding start Pipe.new streamed
  start-IsFaithfulRun now = ground arith

  -- However the steps of the guest and of the reader interleave: the reader never panics; what it has
  -- collected of each pipe is the prefix that it has read of what the guest wrote there, and the
  -- events sent for a stream carry exactly these bytes in order; each pipe holds at most the budget;
  -- past the combined budget, both pipes are closed before the next drain; and the reader ends only
  -- when it has seen both pipes end.
  pub stream-IsFaithfulRun :
      (epoch_ticks now : ℕ) (ms : List Move)
      → IsFaithfulRun budget (moves budget epoch_ticks ms (start budget now))
  stream-IsFaithfulRun epoch_ticks now ms =
      moves-IsFaithfulRun epoch_ticks ms (start budget now) (start-IsFaithfulRun now)

  -- Once the reader has ended, the output that it returns is all that the guest wrote, it was streamed
  -- completely, and it has at most twice the budget.
  pub joined_complete :
      (epoch_ticks now : ℕ) (ms : List Move) {r : Run}
      → moves budget epoch_ticks ms (start budget now) ≡ r
      → r.phase ≡ joined
      → (r.total_stdout ≡ Pipe.contents r.out_pipe)
        × (r.total_stderr ≡ Pipe.contents r.err_pipe)
        × (streamed stdout r.events ≡ r.total_stdout)
        × (streamed stderr r.events ≡ r.total_stderr)
        × (length r.total_stdout + length r.total_stderr ≤ 2 * budget)
  unfolding Pipe.contents
  joined_complete epoch_ticks now ms {r} e j =
      let v = subst (λ x. IsFaithfulRun budget x) e (stream-IsFaithfulRun epoch_ticks now ms) in
      ground (
        arith,
        v,
        take_all r.out_pipe.read_pos r.out_pipe.buffer,
        take_all r.err_pipe.read_pos r.err_pipe.buffer,
      )
