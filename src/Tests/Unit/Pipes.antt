-- ===== src/Tests/Unit/Pipes.antt =====
-- The tests in crates/wasi-runtime/src/pipe.rs and crates/wasi-runtime/src/cancel.rs.
use ferrous_runtime.Prelude.{
  if◌then◌else◌, ◌≡◌, ◌&&◌, [], Bool, true, false, not, none, some, Result, ok, err, refl,
}
use ferrous_runtime.Text.{Text, text, text_eq}
use ferrous_runtime.Pipe
use ferrous_runtime.Pipe.{Pipe, StreamError, closed_stream, trap}
use ferrous_runtime.Cancel

abbrev is_ok : Result StreamError (Unit {0}) → Bool
is_ok (ok _) = true
is_ok (err _) = false

abbrev is_trap : Result StreamError (Unit {0}) → Bool
is_trap (err trap) = true
is_trap _ = false

abbrev is_closed {ℓ} : {A : Type ℓ} → Result StreamError A → Bool
is_closed (err closed_stream) = true
is_closed _ = false

-- The drained bytes and the flag.
abbrev drains : Pipe → Text → Bool → Bool
drains pipe bytes at_end = elim (Pipe.wait_and_drain pipe) [
  | none ↦ false
  | some (drained, eof, _) ↦ text_eq drained bytes && (if at_end then eof else not eof)
]

-- The pipe after a drain.
abbrev drained_pipe : Pipe → Pipe
drained_pipe pipe = elim (Pipe.wait_and_drain pipe) [ none ↦ pipe | some (_, _, rest) ↦ rest ]

abbrev written_bytes_are_drained_incrementally : Bool
written_bytes_are_drained_incrementally =
    let (pipe, wrote) = Pipe.write (Pipe.new 1024) (text "hello ") in
    is_ok wrote && drains pipe (text "hello ") false && drains (drained_pipe pipe) [] false

abbrev eof_is_reported_after_set_eof : Bool
eof_is_reported_after_set_eof = drains (Pipe.set_eof (Pipe.new 1024)) [] true

abbrev write_beyond_capacity_is_a_trap : Bool
write_beyond_capacity_is_a_trap =
    let (pipe, wrote) = Pipe.write (Pipe.new 4) (text "1234") in
    is_ok wrote && is_trap (Pipe.write pipe (text "5")).1

abbrev full_pipe_reports_closed_on_check_write : Bool
full_pipe_reports_closed_on_check_write =
    let (pipe, wrote) = Pipe.write (Pipe.new 2) (text "ab") in
    is_ok wrote && is_closed (Pipe.check_write pipe)

abbrev closed_pipe_rejects_further_writes : Bool
closed_pipe_rejects_further_writes =
    let pipe = Pipe.close (Pipe.new 1024) in
    is_closed (Pipe.write pipe (text "x")).1
    && is_closed (Pipe.check_write pipe)
    && drains (Pipe.set_eof pipe) [] true

abbrev close_is_idempotent_and_keeps_buffered_bytes : Bool
close_is_idempotent_and_keeps_buffered_bytes =
    let (pipe, wrote) = Pipe.write (Pipe.new 1024) (text "abc") in
    let closed = Pipe.close (Pipe.close pipe) in
    let (after, refused) = Pipe.write closed (text "d") in
    is_ok wrote && is_closed refused && text_eq (Pipe.contents after) (text "abc")

abbrev async_write_errors_instead_of_reporting_zero : Bool
async_write_errors_instead_of_reporting_zero =
    let (pipe, wrote) = Pipe.write (Pipe.new 2) (text "ab") in
    is_ok wrote && elim (Pipe.poll_write pipe (text "c")).1 [ none ↦ true | some _ ↦ false ]

abbrev contents_returns_everything_written : Bool
contents_returns_everything_written =
    let (pipe, first) = Pipe.write (Pipe.new 1024) (text "ab") in
    let (whole, second) = Pipe.write (drained_pipe pipe) (text "cd") in
    is_ok first && is_ok second && text_eq (Pipe.contents whole) (text "abcd")

pipes_pass :
    (written_bytes_are_drained_incrementally && eof_is_reported_after_set_eof
      && write_beyond_capacity_is_a_trap && full_pipe_reports_closed_on_check_write
      && closed_pipe_rejects_further_writes && close_is_idempotent_and_keeps_buffered_bytes
      && async_write_errors_instead_of_reporting_zero && contents_returns_everything_written)
    ≡ true
unfolding Pipe.new Pipe.write Pipe.wait_and_drain Pipe.set_eof Pipe.close Pipe.check_write
    Pipe.poll_write Pipe.contents text_eq
pipes_pass = refl

abbrev fresh_handle_is_not_cancelled : Bool
fresh_handle_is_not_cancelled =
    let (handle, flags) = Cancel.new Cancel.no_flags in not (Cancel.is_cancelled handle flags)

abbrev cancel_flips_the_flag_and_is_idempotent : Bool
cancel_flips_the_flag_and_is_idempotent =
    let (handle, flags) = Cancel.new Cancel.no_flags in
    let once = Cancel.cancel handle flags in
    Cancel.is_cancelled handle once && Cancel.is_cancelled handle (Cancel.cancel handle once)

-- A clone is the same reference.
abbrev cloned_handles_share_the_signal : Bool
cloned_handles_share_the_signal =
    let (handle, flags) = Cancel.new Cancel.no_flags in
    let clone = handle in Cancel.is_cancelled clone (Cancel.cancel handle flags)

handles_pass :
    (fresh_handle_is_not_cancelled && cancel_flips_the_flag_and_is_idempotent
      && cloned_handles_share_the_signal)
    ≡ true
unfolding Cancel.new Cancel.cancel Cancel.is_cancelled
handles_pass = refl
