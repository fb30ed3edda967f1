-- ===== src/Command/Request.antt =====
-- `CommandRequest`, `CommandError` and their enums, of crates/wasi-runtime/src/command.rs.
pub mod Valid
use Prim.Native.String.{String}
use ferrous_runtime.Prelude.{
  ℕ, Bool, true, false, not, ◌&&◌, ◌||◌, List, Result, ok, ◌>>◌, reject_if, any, is_empty, ◌==◌,
}
use ferrous_runtime.Text.{Text}
use ferrous_runtime.FilePath.{FilePath}
use ferrous_runtime.Capability.Grant.{CapabilityGrant, allows_path, allows_native_execution}

pub data Actor : Type 0 where
  human agent subagent skill : Actor

pub data ExecutionMode : Type 0 where
  wasi native : ExecutionMode

abbrev pub is_native : ExecutionMode → Bool
is_native native = true
is_native wasi = false

pub data CommandError : Type 0 where
  invalid_program invalid_argument native_not_granted output_limit : CommandError
  working_directory_denied : FilePath → CommandError
  invalid_transition : String → CommandError

pub data ApprovalReason : Type 0 where
  filesystem_write network_access environment_access native_execution : ApprovalReason

pub record CommandRequest : Type 0 where
  pub id : ℕ  -- u64
  pub actor : Actor
  pub mode : ExecutionMode
  pub program : Text
  pub args : List Text
  pub cwd : FilePath
  pub grant : CapabilityGrant

unfoldable pub contains_nul : Text → Bool
contains_nul value = any (λ c. c == 0) value

unfoldable pub validate : CommandRequest → Result CommandError (Unit {0})
validate r = do
  reject_if (is_empty r.program || contains_nul r.program) invalid_program
  reject_if (any contains_nul r.args) invalid_argument
  reject_if (is_native r.mode && not (allows_native_execution r.grant)) native_not_granted
  reject_if (not (allows_path r.grant r.cwd)) (working_directory_denied r.cwd)
  ok tt

-- `CommandRequest::new`, from its fields.
unfoldable pub new :
    ℕ
    → Actor
    → ExecutionMode
    → Text
    → List Text
    → FilePath
    → CapabilityGrant
    → Result CommandError CommandRequest
new id actor mode program args cwd grant =
    let request : CommandRequest = record {
      id = id;
      actor = actor;
      mode = mode;
      program = program;
      args = args;
      cwd = cwd;
      grant = grant;
    } in
    do validate request; ok request
