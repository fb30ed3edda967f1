-- ===== src/Capability/Limits.antt =====
-- `CapabilityError` and `ResourceLimits` of crates/wasi-runtime/src/capability.rs.
-- `usize` and `u64` are 64 bits wide; no operation here does arithmetic on them.
use Prim.Native.String.{String}
use ferrous_runtime.Prelude.{ℕ, Result, ok, err, ◌>>◌, reject_if, ◌==◌, if◌then◌else◌}
use ferrous_runtime.Text.{Text}
use ferrous_runtime.FilePath.{FilePath}

pub data CapabilityError : Type 0 where
  invalid_path : FilePath → CapabilityError
  invalid_limit : String → CapabilityError
  invalid_environment_name : Text → CapabilityError
  invalid_loopback_port : ℕ → CapabilityError

pub record ResourceLimits : Type 0 where
  pub max_output_bytes : ℕ  -- usize
  pub timeout_seconds : ℕ  -- u64
  pub max_memory_bytes : ℕ  -- usize
  pub max_fuel : ℕ  -- u64

abbrev pub default_limits : ResourceLimits
default_limits = record {
  max_output_bytes = 1_048_576;
  timeout_seconds = 30;
  max_memory_bytes = 67_108_864;
  max_fuel = 1_000_000;
}

abbrev pub u64_max : ℕ
u64_max = 18_446_744_073_709_551_615

-- `ResourceLimits::new`.
unfoldable pub new : ℕ → ℕ → Result CapabilityError ResourceLimits
new max_output_bytes timeout_seconds = do
  reject_if (max_output_bytes == 0) (invalid_limit "max_output_bytes")
  reject_if (timeout_seconds == 0) (invalid_limit "timeout_seconds")
  ok (record {
    max_output_bytes = max_output_bytes;
    timeout_seconds = timeout_seconds;
    max_memory_bytes = default_limits.max_memory_bytes;
    max_fuel = default_limits.max_fuel;
  })

unfoldable pub with_fuel : ResourceLimits → ℕ → Result CapabilityError ResourceLimits
with_fuel l max_fuel =
    if max_fuel == 0 then err (invalid_limit "max_fuel") else ok (record l { max_fuel = max_fuel })

unfoldable pub with_unlimited_fuel : ResourceLimits → ResourceLimits
with_unlimited_fuel l = record l { max_fuel = u64_max }

unfoldable pub with_memory_bytes : ResourceLimits → ℕ → Result CapabilityError ResourceLimits
with_memory_bytes l max_memory_bytes =
    if max_memory_bytes == 0
    then err (invalid_limit "max_memory_bytes")
    else ok (record l { max_memory_bytes = max_memory_bytes })
