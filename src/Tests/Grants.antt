-- ===== src/Tests/Grants.antt =====
-- Grants, policies and validation at concrete inputs.
use ferrous_runtime.Prelude.{
  ◌≡◌, ◌↔◌, List, ◌∷◌, Option, [], some, ok, if◌then◌else◌, ◌&&◌, none, refl,
}
use ferrous_runtime.Capability.Grant
use ferrous_runtime.Capability.Grant.Built.{Built, IsWellFormed, Built-IsWellFormed}
use ferrous_runtime.Capability.Grant.Authority.{
  Extension, extend_all, Adds, extend, extend_all-Adds,
}
use ferrous_runtime.SortedSet.{insert, port_order, text_order}
use ferrous_runtime.Wasi.{v4, SocketAddr, tcp_connect, is_loopback}
use ferrous_runtime.Capability.Grant.{CapabilityGrant}
use ferrous_runtime.Policy.{permits, classify_risk, from_grant, selected_environment, Risk}
use ferrous_runtime.Text.{Text, text, is_whitespace}
use ferrous_runtime.Policy.Exact.{get_env, asked, get_env-selected_environment, permits-extended}
use ferrous_runtime.Command.Request.{validate}
use ferrous_runtime.Tests.Fixtures.{request_with, reading_grant}
use ferrous_runtime.Policy.Risky.{IsHarmless, classify_risk-IsHarmless}
use ferrous_runtime.Command.Request.Valid.{IsValid, validate-exact}

abbrev served : CapabilityGrant
served = record Grant.empty { loopback_bind_ports = 80 ∷ [] }

served-Built : Built served
unfolding Grant.allow_loopback_bind_port insert
served-Built = Built.bind 80 (Built.empty refl) refl

Built-IsWellFormed_example : IsWellFormed served
Built-IsWellFormed_example = Built-IsWellFormed served-Built

abbrev asks : List Extension
asks = Extension.connect 443 ∷ Extension.bind 80 ∷ Extension.environment (text "A") ∷ []

abbrev asked_grant : CapabilityGrant
asked_grant = record reading_grant {
  environment = text "A" ∷ [];
  loopback_ports = 443 ∷ [];
  loopback_bind_ports = 80 ∷ [];
}

asks-accepted : extend_all asks reading_grant ≡ ok asked_grant
unfolding extend_all extend Grant.allow_loopback_port Grant.allow_loopback_bind_port
    Grant.allow_environment Grant.is_malformed_name insert is_whitespace
asks-accepted = refl

extend_all-Adds_example : Adds asks reading_grant asked_grant
extend_all-Adds_example = extend_all-Adds asks reading_grant asks-accepted

abbrev loopback : SocketAddr
loopback = record { ip = v4 127 0 0 1; port = 80 }

permits-extended_example :
    permits (from_grant asked_grant) loopback tcp_connect
    ≡ (is_loopback loopback.ip && asked tcp_connect 80 asks)
permits-extended_example =
    permits-extended asks reading_grant refl refl asks-accepted loopback tcp_connect

abbrev secrets : Text → Option Text
secrets name = some (text "s")

get_env-selected_environment_example :
    get_env (text "B") (selected_environment asked_grant secrets)
    ≡ (if Grant.allows_environment asked_grant (text "B") then secrets (text "B") else none)
get_env-selected_environment_example = get_env-selected_environment asked_grant secrets (text "B")

classify_risk-IsHarmless_example :
    (classify_risk (request_with 1 reading_grant) ≡ Risk.auto_approve)
    ↔ IsHarmless (request_with 1 reading_grant)
classify_risk-IsHarmless_example = classify_risk-IsHarmless (request_with 1 reading_grant)

validate-exact_example :
    (validate (request_with 1 reading_grant) ≡ ok tt) ↔ IsValid (request_with 1 reading_grant)
validate-exact_example = validate-exact (request_with 1 reading_grant)
