-- ===== src/Runtime/Events/Joined.antt =====
-- The reader of the streaming run of crates/wasi-runtime/src/lib.rs once both pipes have been ended.
use ferrous_runtime.Prelude.{
  ◌≡◌, ◌≤◌, ◌∷◌, ◌++◌, [], ℕ, Bool, List, map, refl, true, length, arith, ap, ◌∙◌, sym,
}
use ferrous_runtime.Pipe
use ferrous_runtime.Command.Session.{stdout, stderr}
use ferrous_runtime.Runtime.Stream.{
  Run, start, joined, finish_stream, reader_step, drain_out, drain_err, enforce_budget,
  advance_epoch,
}
use ferrous_runtime.Runtime.Stream.Invariant.{Move, move, moves, ends}
use ferrous_runtime.Runtime.Stream.Complete.{stream-IsFaithfulRun}
use ferrous_runtime.Runtime.Stream.Ends.{reader_steps, reader_steps-joined}
use ferrous_runtime.Runtime.Events.{Reading, reading}

module _ (budget ticks : ℕ) where
  moves-append :
      (ms ns : List Move) (r : Run)
      → moves budget ticks (ms ++ ns) r ≡ moves budget ticks ns (moves budget ticks ms r)
  unfolding moves
  moves-append [] ns r = refl
  moves-append (m ∷ ms) ns r = moves-append ms ns (move budget ticks m r)

  moves-readings :
      (steps : List Reading) (r : Run)
      → moves budget ticks (map reading steps) r ≡ reader_steps budget ticks steps r
  unfolding moves move reader_steps
  moves-readings [] r = refl
  moves-readings ((cancelled, now) ∷ steps) r =
      moves-readings steps (reader_step budget ticks cancelled now r)

  step-eof :
      (cancelled : Bool) (now : ℕ) (r : Run)
      → (reader_step budget ticks cancelled now r).out_pipe.eof ≡ r.out_pipe.eof
  unfolding reader_step drain_out drain_err enforce_budget advance_epoch Pipe.wait_and_drain
      Pipe.close
  step-eof cancelled now r = ground arith

  -- An ended pipe stays ended while the reader reads.
  readings-eof :
      (steps : List Reading) (r : Run)
      → (moves budget ticks (map reading steps) r).out_pipe.eof ≡ r.out_pipe.eof
  unfolding moves move
  readings-eof [] r = refl
  readings-eof ((cancelled, now) ∷ steps) r =
      readings-eof steps (reader_step budget ticks cancelled now r) ∙ step-eof cancelled now r

  moves-after :
      (ms : List Move) (m : Move) (ns : List Move) (r : Run)
      → moves budget ticks (ms ++ m ∷ ns) r
        ≡ moves budget ticks ns (moves budget ticks (ms ++ m ∷ []) r)
  unfolding moves
  moves-after ms m ns r =
      moves-append ms (m ∷ ns) r ∙ sym (ap (moves budget ticks ns) (moves-append ms (m ∷ []) r))

  stdout-ended :
      (ms : List Move) (between : List Reading) (r : Run)
      → (moves budget ticks (ms ++ ends stdout ∷ map reading between) r).out_pipe.eof ≡ true
  unfolding moves move finish_stream Pipe.set_eof
  stdout-ended ms between r =
      ap (λ x. x.out_pipe.eof) (moves-append ms (ends stdout ∷ map reading between) r)
      ∙ readings-eof between (finish_stream stdout (moves budget ticks ms r))

  stderr-ended :
      (ms : List Move) (r : Run)
      → (moves budget ticks (ms ++ ends stderr ∷ []) r).err_pipe.eof ≡ true
  unfolding moves move finish_stream Pipe.set_eof
  stderr-ended ms r = ap (λ x. x.err_pipe.eof) (moves-append ms (ends stderr ∷ []) r)

  stderr_end-keeps :
      (ms : List Move) (r : Run)
      → (moves budget ticks (ms ++ ends stderr ∷ []) r).out_pipe.eof
        ≡ (moves budget ticks ms r).out_pipe.eof
  unfolding moves move finish_stream
  stderr_end-keeps ms r = ap (λ x. x.out_pipe.eof) (moves-append ms (ends stderr ∷ []) r)

  -- After any beginning, a reader that takes seven steps once both pipes have ended leaves its loop.
  pub schedule-joined :
      (ms : List Move) (between last : List Reading) (now : ℕ)
      → 7 ≤ length last
      → (moves budget ticks
          (ms ++ ends stdout ∷ map reading between ++ ends stderr ∷ map reading last)
          (start budget now)).phase
        ≡ joined
  schedule-joined ms between last now enough =
      let begun = ms ++ ends stdout ∷ map reading between in
      let r = moves budget ticks (begun ++ ends stderr ∷ []) (start budget now) in
      let v = stream-IsFaithfulRun budget ticks now (begun ++ ends stderr ∷ []) in
      let split =
        moves-after begun (ends stderr) (map reading last) (start budget now)
        ∙ moves-readings last r in
      ap (λ x. x.phase) split
      ∙ reader_steps-joined budget ticks last r
          (stderr_end-keeps begun (start budget now) ∙ stdout-ended ms between (start budget now))
          (stderr-ended begun (start budget now)) v.out_read.position v.err_read.position enough
