-- ===== src/Policy/Risky.antt =====
-- Which requests `classify_risk` of crates/wasi-runtime/src/policy.rs puts before a human.
use ferrous_runtime.Prelude.{
  ◌≡◌, Bool, List, all, is_empty, false, not, true, arith, any, [], ◌∷◌, refl, ◌↔◌,
}
use ferrous_runtime.Capability.Grant
use ferrous_runtime.Command.Request.{CommandRequest, is_native}
use ferrous_runtime.Policy.{classify_risk, Risk, is_write}

-- The request opens nothing but reading below its roots.
pub record IsHarmless (r : CommandRequest) : Type 0 where
  pub not_native : is_native r.mode ≡ false
  pub no_native_grant : Grant.allows_native_execution r.grant ≡ false
  pub reads_only : all (λ f. not (is_write f.access)) r.grant.filesystems ≡ true
  pub no_connect : r.grant.loopback_ports ≡ []
  pub no_bind : r.grant.loopback_bind_ports ≡ []
  pub no_environment : r.grant.environment ≡ []

all-not {ℓ} : {A : Type ℓ} (p : A → Bool) (xs : List A) → all (λ x. not (p x)) xs ≡ not (any p xs)
all-not p [] = refl
all-not p (x ∷ xs) = ground (arith, all-not p xs)

is_empty-eq {ℓ} : {A : Type ℓ} (xs : List A) → is_empty xs ≡ true → xs ≡ []
is_empty-eq [] h = refl
is_empty-eq (x ∷ xs) h = cc

auto_approve-IsHarmless : (r : CommandRequest) → classify_risk r ≡ Risk.auto_approve → IsHarmless r
unfolding classify_risk
auto_approve-IsHarmless r h = record {
  not_native = ground arith;
  no_native_grant = ground arith;
  reads_only = ground (arith, all-not (λ f. is_write f.access) r.grant.filesystems);
  no_connect = is_empty-eq r.grant.loopback_ports (ground arith);
  no_bind = is_empty-eq r.grant.loopback_bind_ports (ground arith);
  no_environment = is_empty-eq r.grant.environment (ground arith);
}

harmless_auto_approve : (r : CommandRequest) → IsHarmless r → classify_risk r ≡ Risk.auto_approve
unfolding classify_risk
harmless_auto_approve r v = ground (arith, v, all-not (λ f. is_write f.access) r.grant.filesystems)

-- A request runs without a human's approval exactly when it opens nothing but reading below its roots:
-- no native execution, no writable root, no port, no environment variable.
pub classify_risk-IsHarmless :
    (r : CommandRequest) → (classify_risk r ≡ Risk.auto_approve) ↔ IsHarmless r
classify_risk-IsHarmless r = (auto_approve-IsHarmless r, harmless_auto_approve r)
