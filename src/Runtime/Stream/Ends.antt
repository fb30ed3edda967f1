-- ===== src/Runtime/Stream/Ends.antt =====
-- When the reader thread of crates/wasi-runtime/src/lib.rs leaves its loop.
use ferrous_runtime.Prelude.{
  ◌∷◌, ◌≡◌, ℕ, List, Bool, ◌+◌, true, ◌&&◌, if◌then◌else◌, ◌≤◌, length, ◌-◌, arith, [], refl,
}
use ferrous_runtime.Pipe
use ferrous_runtime.Runtime.Stream.{
  reader_step, Phase, Run, drain_out, drain_stdout, drain_err, drain_stderr, enforce_budget,
  enforce, advance_epoch, joined, advance,
}

-- Consecutive steps of the reader, with the flag and the time that each would read.
unfoldable pub reader_steps : ℕ → ℕ → List (Bool × ℕ) → Run → Run
reader_steps budget epoch_ticks [] r = r
reader_steps budget epoch_ticks ((cancelled, now) ∷ rest) r =
    reader_steps budget epoch_ticks rest (reader_step budget epoch_ticks cancelled now r)

-- The steps to the next end of the loop's body.
abbrev pub to_advance : Phase → ℕ
to_advance drain_stdout = 4
to_advance drain_stderr = 3
to_advance enforce = 2
to_advance advance = 1
to_advance joined = 0

-- Whether the flags that the loop ends by are already set as far as the phase has come.
abbrev pub knows_end : Phase → Run → Bool
knows_end drain_stdout r = true
knows_end drain_stderr r = r.out_eof
knows_end enforce r = r.out_eof && r.err_eof
knows_end advance r = r.out_eof && r.err_eof
knows_end joined r = true

-- The steps that the reader may still need once both pipes have ended.
abbrev pub rank : Run → ℕ
rank r = to_advance r.phase + (if knows_end r.phase r then 0 else 4)

-- Both pipes have ended and no slice is out of range.
abbrev pub BothEnded : Run → Type 0
BothEnded r =
    (r.out_pipe.eof ≡ true)
    × (r.err_pipe.eof ≡ true)
    × (r.out_pipe.read_pos ≤ length r.out_pipe.buffer)
    × (r.err_pipe.read_pos ≤ length r.err_pipe.buffer)

rank-le : (r : Run) → rank r ≤ 7
rank-le r = ground arith

rank_zero : (r : Run) → rank r ≡ 0 → r.phase ≡ joined
rank_zero r h = ground arith

module _ (budget epoch_ticks : ℕ) where
  step-BothEnded :
      (p : Phase) (cancelled : Bool) (now : ℕ) (r : Run)
      → r.phase ≡ p
      → BothEnded r
      → BothEnded (reader_step budget epoch_ticks cancelled now r)
        × (rank (reader_step budget epoch_ticks cancelled now r) ≤ rank r - 1)
  unfolding reader_step drain_out drain_err enforce_budget advance_epoch Pipe.wait_and_drain
      Pipe.close
  step-BothEnded drain_stdout cancelled now r e v = ground arith
  step-BothEnded drain_stderr cancelled now r e v = ground arith
  step-BothEnded enforce cancelled now r e v = ground arith
  step-BothEnded advance cancelled now r e v = ground arith
  step-BothEnded joined cancelled now r e v = ground arith

  steps-rank :
      (steps : List (Bool × ℕ)) (r : Run)
      → BothEnded r
      → rank (reader_steps budget epoch_ticks steps r) ≤ rank r - length steps
  unfolding reader_steps
  steps-rank [] r v = omega arith
  steps-rank ((cancelled, now) ∷ steps) r v =
      let (still, less) = step-BothEnded r.phase cancelled now r refl v in
      omega (arith, steps-rank steps (reader_step budget epoch_ticks cancelled now r) still)

  -- Once both pipes have ended, the reader leaves its loop within seven of its steps, whatever it
  -- sees of the clock and of the cancel flag: the thread that joins it does not wait for ever.
  pub reader_steps-joined :
      (steps : List (Bool × ℕ)) (r : Run)
      → r.out_pipe.eof ≡ true
      → r.err_pipe.eof ≡ true
      → r.out_pipe.read_pos ≤ length r.out_pipe.buffer
      → r.err_pipe.read_pos ≤ length r.err_pipe.buffer
      → 7 ≤ length steps
      → (reader_steps budget epoch_ticks steps r).phase ≡ joined
  reader_steps-joined steps r o e p q l =
      rank_zero (reader_steps budget epoch_ticks steps r)
        (omega (arith, steps-rank steps r (o, e, p, q), rank-le r))
