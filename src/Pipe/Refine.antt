-- ===== src/Pipe/Refine.antt =====
-- The pipe of crates/wasi-runtime/src/pipe.rs against a plain byte stream: what its writers were told
-- was taken, and what its reader has been given.
use ferrous_runtime.Prelude.{
  refl, List, Option, ℕ, Bool, Result, some, ◌∷◌, [], ◌≡◌, arith, ◌++◌, true, false, length, ok,
  take, ◌≤◌, none, err, length-append, min, take-append-drop, take-append, take-length, length-take,
}
use ferrous_runtime.Pipe.{
  Pipe, new, write, poll_write, wait_and_drain, close, set_eof, StreamError, check_write, usize_sub,
}

pub data Call : Type 0 where
  writes poll_writes : List ℕ → Call
  drains closes sets_eof : Call

-- A pipe with the two histories.
pub record History : Type 0 where
  pub pipe : Pipe
  pub taken : List ℕ
  pub drained : List ℕ
  pub panicked : Bool

pub note_write : List ℕ → Pipe × Result StreamError (Unit {0}) → History → History
note_write bytes (p, ok _) h = record h { pipe = p; taken = h.taken ++ bytes }
note_write bytes (p, err _) h = record h { pipe = p }

pub note_poll : List ℕ → Pipe × Option ℕ → History → History
note_poll bytes (p, some amt) h = record h { pipe = p; taken = h.taken ++ take amt bytes }
note_poll bytes (p, none) h = record h { pipe = p }

pub note_drain : Option (List ℕ × Bool × Pipe) → History → History
note_drain none h = record h { panicked = true }
note_drain (some (bytes, eof, p)) h = record h { pipe = p; drained = h.drained ++ bytes }

unfoldable pub apply_call : Call → History → History
unfolding note_write note_poll note_drain
apply_call (writes bytes) h = note_write bytes (write h.pipe bytes) h
apply_call (poll_writes bytes) h = note_poll bytes (poll_write h.pipe bytes) h
apply_call drains h = note_drain (wait_and_drain h.pipe) h
apply_call closes h = record h { pipe = close h.pipe }
apply_call sets_eof h = record h { pipe = set_eof h.pipe }

unfoldable pub apply_calls : List Call → History → History
unfolding apply_call
apply_calls [] h = h
apply_calls (c ∷ calls) h = apply_calls calls (apply_call c h)

unfoldable pub fresh : ℕ → History
fresh capacity = record { pipe = new capacity; taken = []; drained = []; panicked = false }

-- The buffer holds what was taken, within the capacity, and the reader has had it up to `read_pos`.
pub record IsFaithful (capacity : ℕ) (h : History) : Type 0 where
  pub fixed : h.pipe.capacity ≡ capacity
  pub bounded : length h.pipe.buffer ≤ capacity
  pub positioned : h.pipe.read_pos ≤ length h.pipe.buffer
  pub stored : h.pipe.buffer ≡ h.taken
  pub given : h.drained ≡ take h.pipe.read_pos h.taken
  pub calm : h.panicked ≡ false

module _ (capacity : ℕ) where
  fresh-IsFaithful : IsFaithful capacity (fresh capacity)
  unfolding fresh new
  fresh-IsFaithful = record {
    fixed = refl;
    bounded = omega arith;
    positioned = omega arith;
    stored = refl;
    given = refl;
    calm = refl;
  }

  write-IsFaithful :
      (bytes : List ℕ) (h : History)
      → IsFaithful capacity h
      → IsFaithful capacity (apply_call (writes bytes) h)
  unfolding apply_call write
  write-IsFaithful bytes h v =
      ground (arith, length-append h.pipe.buffer bytes, take-append h.pipe.read_pos h.taken bytes)

  poll_write-IsFaithful :
      (bytes : List ℕ) (h : History)
      → IsFaithful capacity h
      → IsFaithful capacity (apply_call (poll_writes bytes) h)
  unfolding apply_call poll_write
  poll_write-IsFaithful bytes h v =
      let amt = min (length bytes) (usize_sub h.pipe.capacity (length h.pipe.buffer)) in
      ground (
        arith,
        length-append h.pipe.buffer (take amt bytes),
        length-take amt bytes,
        take-append h.pipe.read_pos h.taken (take amt bytes),
      )

  drain-IsFaithful :
      (h : History) → IsFaithful capacity h → IsFaithful capacity (apply_call drains h)
  unfolding apply_call wait_and_drain
  drain-IsFaithful h v =
      ground (arith, take-append-drop h.pipe.read_pos h.pipe.buffer, take-length h.pipe.buffer)

  apply_call-IsFaithful :
      (c : Call) (h : History) → IsFaithful capacity h → IsFaithful capacity (apply_call c h)
  unfolding apply_call close set_eof
  apply_call-IsFaithful (writes bytes) h v = write-IsFaithful bytes h v
  apply_call-IsFaithful (poll_writes bytes) h v = poll_write-IsFaithful bytes h v
  apply_call-IsFaithful drains h v = drain-IsFaithful h v
  apply_call-IsFaithful closes h v = ground arith
  apply_call-IsFaithful sets_eof h v = ground arith

  apply_calls-IsFaithful :
      (calls : List Call) (h : History)
      → IsFaithful capacity h
      → IsFaithful capacity (apply_calls calls h)
  unfolding apply_calls
  apply_calls-IsFaithful [] h v = v
  apply_calls-IsFaithful (c ∷ calls) h v =
      apply_calls-IsFaithful calls (apply_call c h) (apply_call-IsFaithful c h v)

  -- Whatever is called on a new pipe, in any order: no call panics, the buffer is exactly the bytes
  -- that writers were told were taken and fits the capacity, and the reader has been given a prefix
  -- of it, in order and without gaps or repetitions.
  pub new_pipe-IsFaithful :
      (calls : List Call) → IsFaithful capacity (apply_calls calls (fresh capacity))
  new_pipe-IsFaithful calls = apply_calls-IsFaithful calls (fresh capacity) fresh-IsFaithful

-- If the buffer fits the capacity and `check_write` offers some room, then the next `write` of that many
-- bytes or fewer succeeds and appends exactly these bytes.
pub write_of_check_write :
    (p : Pipe) (bytes : List ℕ) {room : ℕ}
    → length p.buffer ≤ p.capacity
    → check_write p ≡ ok room
    → length bytes ≤ room
    → write p bytes ≡ (record p { buffer = p.buffer ++ bytes }, ok tt)
unfolding check_write write
write_of_check_write p bytes b c l = ground arith
