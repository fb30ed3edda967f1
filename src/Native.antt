-- ===== src/Native.antt =====
-- crates/wasi-runtime/src/native.rs: the native backend, which refuses every request so far.
use ferrous_runtime.Prelude.{not, Result, err, ◌>>◌, reject_if}
use ferrous_runtime.Capability.Grant.{allows_native_execution}
use ferrous_runtime.Command.Request.{CommandRequest, is_native}

pub data NativeError : Type 0 where
  wrong_mode native_not_granted unsupported_on_host : NativeError

unfoldable pub start : CommandRequest → Result NativeError (Unit {0})
start r = do
  reject_if (not (is_native r.mode)) wrong_mode
  reject_if (not (allows_native_execution r.grant)) native_not_granted
  err unsupported_on_host
