-- ===== src/Runtime/Stream/Invariant.antt =====
-- The steps of the streaming run of crates/wasi-runtime/src/lib.rs, their invariant, and the two
-- drains.
use ferrous_runtime.Prelude.{
  ◌≡◌, ◌==◌, Bool, ℕ, List, ◌∷◌, ◌≤◌, false, length, arith, if◌then◌else◌, take, length-append,
  ◌++◌, [], not, take-append, drop, ◌||◌, take-append-drop, ◌&&◌, take-length, true, ap, append-nil,
  refl, ◌∙◌, sym, append_assoc, leb, ◌+◌,
}
use ferrous_runtime.Pipe
use ferrous_runtime.Command.Session.{stdout, stderr}
use ferrous_runtime.Runtime.Stream.{
  Run, reader_step, guest_write, chunk, finish_stream, drain_out, drain_err, Phase, joined, advance,
}
use ferrous_runtime.Command.Session.{Stream, SessionEvent}
use ferrous_runtime.Pipe.{Pipe}

-- A step of one of the two threads: the reader's next step, with the cancel flag and the time that it
-- reads; a write of the guest; or the end of a pipe, after which its writer is gone.
pub data Move : Type 0 where
  reads : Bool → ℕ → Move
  writes : Stream → List ℕ → Move
  ends : Stream → Move

abbrev pub pipe_of : Stream → Run → Pipe
pipe_of stdout r = r.out_pipe
pipe_of stderr r = r.err_pipe

unfoldable pub move : ℕ → ℕ → Move → Run → Run
move budget epoch_ticks (reads cancelled now) r = reader_step budget epoch_ticks cancelled now r
move budget epoch_ticks (writes stream bytes) r =
    if (pipe_of stream r).eof then r else guest_write stream bytes r
move budget epoch_ticks (ends stream) r = finish_stream stream r

unfoldable pub moves : ℕ → ℕ → List Move → Run → Run
moves budget epoch_ticks [] r = r
moves budget epoch_ticks (m ∷ ms) r = moves budget epoch_ticks ms (move budget epoch_ticks m r)

-- The bytes of a stream that an event carries.
abbrev pub chunk_of : Stream → SessionEvent → List ℕ
chunk_of stdout (SessionEvent.output stdout bytes) = bytes
chunk_of stderr (SessionEvent.output stderr bytes) = bytes
chunk_of _ _ = []

-- The bytes of a stream that were sent as events, in order.
unfoldable pub streamed : Stream → List SessionEvent → List ℕ
streamed s [] = []
streamed s (e ∷ events) = chunk_of s e ++ streamed s events

-- What the reader has collected of a pipe is what the guest wrote up to the reader's position, and it
-- has seen the end only when it has everything.
pub record IsRead (budget : ℕ) (p : Pipe) (total : List ℕ) (eof : Bool) : Type 0 where
  pub position : p.read_pos ≤ length p.buffer
  pub fits : length p.buffer ≤ budget
  pub capacity : p.capacity ≡ budget
  pub collected : total ≡ take p.read_pos p.buffer
  pub seen : (not eof || (p.eof && p.read_pos == length p.buffer)) ≡ true

pub write-IsRead :
    (budget : ℕ) (p : Pipe) (total : List ℕ) (eof : Bool) (bytes : List ℕ)
    → p.eof ≡ false
    → IsRead budget p total eof
    → IsRead budget (Pipe.write p bytes).0 total eof
unfolding Pipe.write
write-IsRead budget p total eof bytes e v =
    ground (arith, v, length-append p.buffer bytes, take-append p.read_pos p.buffer bytes)

drain-IsRead :
    (budget : ℕ) (p : Pipe) (total : List ℕ) (eof : Bool)
    → IsRead budget p total eof
    → IsRead budget
        (record p { read_pos = length p.buffer })
        (total ++ drop p.read_pos p.buffer)
        p.eof
drain-IsRead budget p total eof v =
    ground (arith, v, take-append-drop p.read_pos p.buffer, take-length p.buffer)

pub close-IsRead :
    (budget : ℕ) (p : Pipe) (total : List ℕ) (eof : Bool)
    → IsRead budget p total eof
    → IsRead budget (Pipe.close p) total eof
unfolding Pipe.close
close-IsRead budget p total eof v = ground (arith, v)

pub set_eof-IsRead :
    (budget : ℕ) (p : Pipe) (total : List ℕ) (eof : Bool)
    → IsRead budget p total eof
    → IsRead budget (Pipe.set_eof p) total eof
unfolding Pipe.set_eof
set_eof-IsRead budget p total eof v = ground (arith, v)

streamed-append :
    (s : Stream) (xs ys : List SessionEvent)
    → streamed s (xs ++ ys) ≡ streamed s xs ++ streamed s ys
unfolding streamed
streamed-append s [] ys = refl
streamed-append s (x ∷ xs) ys =
    ap (◌++◌ (chunk_of s x)) (streamed-append s xs ys)
    ∙ sym (append_assoc (chunk_of s x) (streamed s xs) (streamed s ys))

streamed-chunk_same : (s : Stream) (bytes : List ℕ) → streamed s (chunk s bytes) ≡ bytes
unfolding streamed
streamed-chunk_same s [] = refl
streamed-chunk_same stdout (b ∷ bytes) = append-nil (b ∷ bytes)
streamed-chunk_same stderr (b ∷ bytes) = append-nil (b ∷ bytes)

streamed-chunk_out : (bytes : List ℕ) → streamed stdout (chunk stderr bytes) ≡ []
unfolding streamed
streamed-chunk_out [] = refl
streamed-chunk_out (b ∷ bytes) = refl

streamed-chunk_err : (bytes : List ℕ) → streamed stderr (chunk stdout bytes) ≡ []
unfolding streamed
streamed-chunk_err [] = refl
streamed-chunk_err (b ∷ bytes) = refl

abbrev pub is_advance : Phase → Bool
is_advance advance = true
is_advance _ = false

abbrev pub is_joined : Phase → Bool
is_joined joined = true
is_joined _ = false

-- The state of a run in which nothing was lost: what was collected and what was streamed are what the
-- pipes took, over-long output has closed both pipes, and the reader ends only after both ends.
pub record IsFaithfulRun (budget : ℕ) (r : Run) : Type 0 where
  pub out_read : IsRead budget r.out_pipe r.total_stdout r.out_eof
  pub err_read : IsRead budget r.err_pipe r.total_stderr r.err_eof
  pub out_streamed : streamed stdout r.events ≡ r.total_stdout
  pub err_streamed : streamed stderr r.events ≡ r.total_stderr
  pub no_panic : r.panicked ≡ false
  pub cut : (not r.budget_closed || (r.out_pipe.closed && r.err_pipe.closed)) ≡ true
  pub enforced :
      (not (is_advance r.phase)
        || leb (length r.total_stdout + length r.total_stderr) budget
        || r.budget_closed)
      ≡ true
  pub joins : (not (is_joined r.phase) || (r.out_eof && r.err_eof)) ≡ true

pub drain_out-IsFaithfulRun :
    (budget : ℕ) (r : Run) → IsFaithfulRun budget r → IsFaithfulRun budget (drain_out r)
unfolding drain_out Pipe.wait_and_drain
drain_out-IsFaithfulRun budget r v =
    let bytes = drop r.out_pipe.read_pos r.out_pipe.buffer in
    ground (
      arith,
      v,
      v.out_read.position,
      drain-IsRead budget r.out_pipe r.total_stdout r.out_eof v.out_read,
      streamed-append stdout r.events (chunk stdout bytes),
      streamed-append stderr r.events (chunk stdout bytes),
      streamed-chunk_same stdout bytes,
      streamed-chunk_err bytes,
      append-nil r.total_stderr,
    )

pub drain_err-IsFaithfulRun :
    (budget : ℕ) (r : Run) → IsFaithfulRun budget r → IsFaithfulRun budget (drain_err r)
unfolding drain_err Pipe.wait_and_drain
drain_err-IsFaithfulRun budget r v =
    let bytes = drop r.err_pipe.read_pos r.err_pipe.buffer in
    ground (
      arith,
      v,
      v.err_read.position,
      drain-IsRead budget r.err_pipe r.total_stderr r.err_eof v.err_read,
      streamed-append stdout r.events (chunk stderr bytes),
      streamed-append stderr r.events (chunk stderr bytes),
      streamed-chunk_same stderr bytes,
      streamed-chunk_out bytes,
      append-nil r.total_stdout,
    )
