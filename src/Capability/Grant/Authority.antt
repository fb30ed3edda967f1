-- ===== src/Capability/Grant/Authority.antt =====
-- What a grant of crates/wasi-runtime/src/capability.rs allows, from the calls that extended it.
use ferrous_runtime.Prelude.{
  ◌>>=◌, ◌==◌, List, ℕ, Bool, Result, false, true, ◌≡◌, any, not, ok, ◌∷◌, ◌||◌, ◌&&◌, [], arith,
  >>=-eq-ok, ◌∙◌, ap, sym, refl,
}
use ferrous_runtime.SortedSet.{contains-insert, port_order, text_order}
use ferrous_runtime.Capability.Grant
use ferrous_runtime.Text.{
  Text, text_eq, text_lt, text_lt_irrefl, text_eq_refl, eq_of_text_eq, text_lt-total,
}
use ferrous_runtime.Capability.Grant.{CapabilityGrant}
use ferrous_runtime.Capability.Limits.{ResourceLimits, CapabilityError}

-- The builder methods that extend a grant.
pub data Extension : Type 0 where
  environment : Text → Extension
  connect bind : ℕ → Extension
  native : Extension
  limits : ResourceLimits → Extension

unfoldable pub extend : Extension → CapabilityGrant → Result CapabilityError CapabilityGrant
extend (environment name) grant = Grant.allow_environment grant name
extend (connect port) grant = Grant.allow_loopback_port grant port
extend (bind port) grant = Grant.allow_loopback_bind_port grant port
extend native grant = ok (Grant.allow_native_execution grant)
extend (limits l) grant = ok (Grant.with_limits grant l)

unfoldable pub extend_all :
    List Extension → CapabilityGrant → Result CapabilityError CapabilityGrant
unfolding extend
extend_all [] grant = ok grant
extend_all (x ∷ extensions) grant = do extended ← extend x grant; extend_all extensions extended

abbrev pub asks_environment : Text → Extension → Bool
asks_environment t (environment name) = text_eq t name
asks_environment t _ = false

abbrev pub asks_connect : ℕ → Extension → Bool
asks_connect p (connect port) = p == port
asks_connect p _ = false

abbrev pub asks_bind : ℕ → Extension → Bool
asks_bind p (bind port) = p == port
asks_bind p _ = false

abbrev pub asks_native : Extension → Bool
asks_native native = true
asks_native _ = false

-- The limits that were set last, from those before.
abbrev pub last_limits : List Extension → ResourceLimits → ResourceLimits
last_limits [] before = before
last_limits (limits l ∷ extensions) before = last_limits extensions l
last_limits (_ ∷ extensions) before = last_limits extensions before

-- `h` allows what `g` does and what the extensions ask for, and nothing else: its roots, each with its
-- access, are those of `g`, and its limits are those set last.
pub record Adds (extensions : List Extension) (g h : CapabilityGrant) : Type 0 where
  pub environment :
      (t : Text)
      → Grant.allows_environment h t
        ≡ (any (asks_environment t) extensions || Grant.allows_environment g t)
  pub connect :
      (p : ℕ)
      → Grant.allows_loopback_port h p
        ≡ (any (asks_connect p) extensions || Grant.allows_loopback_port g p)
  pub bind :
      (p : ℕ)
      → Grant.allows_loopback_bind_port h p
        ≡ (any (asks_bind p) extensions || Grant.allows_loopback_bind_port g p)
  pub native :
      Grant.allows_native_execution h
      ≡ (any asks_native extensions || Grant.allows_native_execution g)
  pub roots : h.filesystems ≡ g.filesystems
  pub limits : h.limits ≡ last_limits extensions g.limits

pub text_eq-lt : (a b : Text) → text_eq a b ≡ (not (text_lt a b) && not (text_lt b a))
text_eq-lt a b =
    ground (arith, text_lt_irrefl a, text_eq_refl a, eq_of_text_eq a b, text_lt-total a b)

extend-Adds :
    (x : Extension) (g : CapabilityGrant) {h : CapabilityGrant}
    → extend x g ≡ ok h
    → Adds (x ∷ []) g h
unfolding extend Grant.allow_environment Grant.allow_loopback_port Grant.allow_loopback_bind_port
    Grant.allow_native_execution Grant.with_limits Grant.allows_environment
    Grant.allows_loopback_port Grant.allows_loopback_bind_port Grant.allows_native_execution
    Grant.allows_path
extend-Adds (environment name) g e = record {
  environment = λ t. ground (arith, contains-insert name t g.environment, text_eq-lt t name);
  connect = λ p. ground arith;
  bind = λ p. ground arith;
  native = ground arith;
  roots = ground arith;
  limits = ground arith;
}
extend-Adds (connect port) g e = record {
  environment = λ t. ground arith;
  connect = λ p. ground (arith, contains-insert port p g.loopback_ports);
  bind = λ p. ground arith;
  native = ground arith;
  roots = ground arith;
  limits = ground arith;
}
extend-Adds (bind port) g e = record {
  environment = λ t. ground arith;
  connect = λ p. ground arith;
  bind = λ p. ground (arith, contains-insert port p g.loopback_bind_ports);
  native = ground arith;
  roots = ground arith;
  limits = ground arith;
}
extend-Adds native g e = record {
  environment = λ t. ground arith;
  connect = λ p. ground arith;
  bind = λ p. ground arith;
  native = ground arith;
  roots = ground arith;
  limits = ground arith;
}
extend-Adds (limits l) g e = record {
  environment = λ t. ground arith;
  connect = λ p. ground arith;
  bind = λ p. ground arith;
  native = ground arith;
  roots = ground arith;
  limits = ground arith;
}

last_limits-step :
    (x : Extension) (xs : List Extension) (l : ResourceLimits)
    → last_limits (x ∷ xs) l ≡ last_limits xs (last_limits (x ∷ []) l)
last_limits-step (environment name) xs l = refl
last_limits-step (connect port) xs l = refl
last_limits-step (bind port) xs l = refl
last_limits-step native xs l = refl
last_limits-step (limits m) xs l = refl

Adds-trans :
    (x : Extension) (xs : List Extension) (g m h : CapabilityGrant)
    → Adds (x ∷ []) g m
    → Adds xs m h
    → Adds (x ∷ xs) g h
Adds-trans x xs g m h a b = record {
  environment = λ t. ground (arith, a.environment t, b.environment t);
  connect = λ p. ground (arith, a.connect p, b.connect p);
  bind = λ p. ground (arith, a.bind p, b.bind p);
  native = ground (arith, a.native, b.native);
  roots = b.roots ∙ a.roots;
  limits = b.limits ∙ ap (last_limits xs) a.limits ∙ sym (last_limits-step x xs g.limits);
}

-- A grant that was extended allows what it did before and what the accepted calls asked for by name,
-- and nothing else: no connect port becomes a bind port, the granted roots and the access to each stay
-- as they were, and the limits are those set last, or the first ones if none were set.
pub extend_all-Adds :
    (extensions : List Extension) (g : CapabilityGrant) {h : CapabilityGrant}
    → extend_all extensions g ≡ ok h
    → Adds extensions g h
unfolding extend_all
extend_all-Adds [] g {h} e = record {
  environment = λ t. ground arith;
  connect = λ p. ground arith;
  bind = λ p. ground arith;
  native = ground arith;
  roots = ground arith;
  limits = ground arith;
}
extend_all-Adds (x ∷ extensions) g {h} e =
    let (m, first, rest) = >>=-eq-ok (extend x g) (extend_all extensions) e in
    Adds-trans x extensions g m h (extend-Adds x g first) (extend_all-Adds extensions m rest)
