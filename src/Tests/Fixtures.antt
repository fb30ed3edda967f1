-- ===== src/Tests/Fixtures.antt =====
-- A workspace, requests and a host to try the theorems on.
use ferrous_runtime.Prelude.{ℕ, ◌∷◌, some, [], none}
use ferrous_runtime.Capability.Grant
use ferrous_runtime.Capability.Grant.{CapabilityGrant}
use ferrous_runtime.Command.Request.{wasi, CommandRequest, agent}
use ferrous_runtime.Runtime.Store.{Host}
use ferrous_runtime.FilePath.{FilePath, root_dir, normal}
use ferrous_runtime.Capability.Filesystem.{read, read_write}
use ferrous_runtime.Text.{text}

abbrev pub work : FilePath
work = root_dir ∷ normal (text "work") ∷ []

abbrev pub reading_grant : CapabilityGrant
reading_grant = record Grant.empty { filesystems = (record { root = work; access = read }) ∷ [] }

abbrev pub writing_grant : CapabilityGrant
writing_grant = record Grant.empty {
  filesystems = (record { root = work; access = read_write }) ∷ [];
}

abbrev pub request_with : ℕ → CapabilityGrant → CommandRequest
request_with id grant = record {
  id = id;
  actor = agent;
  mode = wasi;
  program = text "p";
  args = [];
  cwd = work;
  grant = grant;
}

-- A file system without links in which everything exists, an empty environment, and no failures.
abbrev pub plain_host : Host ℕ
plain_host = record {
  canonicalize = λ p. some p;
  env_provider = λ name. none;
  preopen_error = λ root guest. none;
  linker_error = none;
  fuel_error = λ fuel. none;
}
