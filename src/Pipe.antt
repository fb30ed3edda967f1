-- ===== src/Pipe.antt =====
-- crates/wasi-runtime/src/pipe.rs: `StreamOutputPipe`. A method is one step on the locked state; the
-- condition variable only decides when `wait_and_drain` takes the lock again, and leaves no trace.
pub mod Refine
use ferrous_runtime.Prelude.{
  ℕ, ◌+◌, ◌-◌, min, Bool, true, false, not, ◌&&◌, ◌||◌, List, [], ◌++◌, Option, none, some, Result,
  ok, err, length, take, drop, leb, ltb, ◌==◌, if◌then◌else◌,
}
use ferrous_runtime.Capability.Limits.{u64_max}

pub data StreamError : Type 0 where
  closed_stream trap : StreamError

pub record Pipe : Type 0 where
  pub capacity : ℕ
  pub buffer : List ℕ
  pub read_pos : ℕ
  pub eof : Bool
  pub closed : Bool

-- `a - b` on `usize`, which wraps round below 0 in a release build.
abbrev pub usize_sub : ℕ → ℕ → ℕ
usize_sub a b = if ltb a b then u64_max + 1 + a - b else a - b

unfoldable pub new : ℕ → Pipe
new capacity = record {
  capacity = capacity;
  buffer = [];
  read_pos = 0;
  eof = false;
  closed = false;
}

-- What `wait_and_drain` waits on.
unfoldable pub must_wait : Pipe → Bool
must_wait p = p.read_pos == length p.buffer && not p.eof

-- `wait_and_drain`, from where the wait ends. `none` is the panic of a slice that starts past the
-- end of the buffer.
unfoldable pub wait_and_drain : Pipe → Option (List ℕ × Bool × Pipe)
wait_and_drain p =
    if leb p.read_pos (length p.buffer)
    then some (drop p.read_pos p.buffer, p.eof, record p { read_pos = length p.buffer })
    else none

unfoldable pub contents : Pipe → List ℕ
contents p = p.buffer

unfoldable pub set_eof : Pipe → Pipe
set_eof p = record p { eof = true }

unfoldable pub close : Pipe → Pipe
close p = record p { closed = true }

-- `OutputStream::write`.
unfoldable pub write : Pipe → List ℕ → Pipe × Result StreamError (Unit {0})
write p bytes =
    if p.closed
    then (p, err closed_stream)
    else if ltb (usize_sub p.capacity (length p.buffer)) (length bytes)
    then (p, err trap)
    else (record p { buffer = p.buffer ++ bytes }, ok tt)

-- `OutputStream::check_write`.
unfoldable pub check_write : Pipe → Result StreamError ℕ
check_write p =
    if p.closed
    then err closed_stream
    else if ltb (length p.buffer) p.capacity
    then ok (usize_sub p.capacity (length p.buffer))
    else err closed_stream

-- `AsyncWrite::poll_write`: the number of bytes taken, or none for the `WriteZero` error.
unfoldable pub poll_write : Pipe → List ℕ → Pipe × Option ℕ
poll_write p bytes =
    if p.closed || leb p.capacity (length p.buffer)
    then (p, none)
    else (let amt = min (length bytes) (usize_sub p.capacity (length p.buffer)) in
        (record p { buffer = p.buffer ++ take amt bytes }, some amt))

-- `AsyncWrite::poll_shutdown`.
unfoldable pub poll_shutdown : Pipe → Pipe
unfolding set_eof
poll_shutdown p = set_eof p
