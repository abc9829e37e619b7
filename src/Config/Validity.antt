-- ===== src/Config/Validity.antt =====
-- src/config.rs: which configurations `validate` and `ConfigBuilder::build` accept.
use netconnpool_rust.Base.{◌≤◌, ◌<◌, ◌≡◌, sym, subst, ◌↔◌, ◌⊎◌, Bool, true, arith, ok, is_some}
use netconnpool_rust.Config.{Config, validate, apply_defaults}
use netconnpool_rust.Config.Builder.{ConfigBuilder, build}
use netconnpool_rust.Mode.{PoolMode, client, server}

-- What opens connections in the mode at hand.
abbrev pub has_source : Config → PoolMode → Bool
has_source c client = is_some c.dialer
has_source c server = is_some c.listener

pub record IsValid (c : Config) : Type 0 where
  pub source : has_source c c.mode ≡ true
  pub min_within : 0 < c.max_connections → c.min_connections ≤ c.max_connections
  pub some_idle : 0 < c.max_idle_connections
  pub some_time : 0 < c.connection_timeout
  pub idle_within : 0 < c.max_connections → c.max_idle_connections ≤ c.max_connections
  pub idle_timeout_within : c.idle_timeout ≤ c.max_lifetime
  pub check_within : c.health_check_timeout ≤ c.health_check_interval

validate_sound : (c : Config) → validate c ≡ ok tt → IsValid c
unfolding validate
validate_sound c h = ground arith

validate_complete : (c : Config) → IsValid c → validate c ≡ ok tt
unfolding validate
validate_complete c v = ground arith

-- `validate` accepts exactly the valid configurations.
pub validate_iff : (c : Config) → (validate c ≡ ok tt) ↔ IsValid c
validate_iff c = (validate_sound c, validate_complete c)

-- Correcting a configuration twice is correcting it once.
apply_defaults_idem : (c : Config) → apply_defaults (apply_defaults c) ≡ apply_defaults c
unfolding apply_defaults
apply_defaults_idem c = ground arith

-- What the caller has to provide, before the corrections: `max_idle_connections` may exceed the limit,
-- and so may the timeout of the health check, unless its interval is zero.
pub record IsBuildable (c : Config) : Type 0 where
  pub source : has_source c c.mode ≡ true
  pub min_within : 0 < c.max_connections → c.min_connections ≤ c.max_connections
  pub some_idle : 0 < c.max_idle_connections
  pub some_time : 0 < c.connection_timeout
  pub idle_timeout_within : c.idle_timeout ≤ c.max_lifetime
  pub check_within :
      (c.health_check_timeout ≤ c.health_check_interval) ⊎ (0 < c.health_check_interval)

apply_defaults-IsValid : (c : Config) → IsBuildable c → IsValid (apply_defaults c)
unfolding apply_defaults
apply_defaults-IsValid c v = ground arith

apply_defaults-IsBuildable : (c : Config) → IsValid (apply_defaults c) → IsBuildable c
unfolding apply_defaults
apply_defaults-IsBuildable c v = ground arith

-- `build` returns a configuration exactly if the given one is buildable; what it returns is the
-- corrected configuration, which is valid.
pub build_iff :
    (b : ConfigBuilder) (c : Config)
    → (build b ≡ ok c) ↔ (IsBuildable b.config × (c ≡ apply_defaults b.config) × IsValid c)
unfolding build
build_iff b c = (
  (λ h.
      let checked : validate (apply_defaults b.config) ≡ ok tt = ground arith in
      let same : c ≡ apply_defaults b.config = ground arith in
      let valid = validate_sound (apply_defaults b.config) checked in
      (apply_defaults-IsBuildable b.config valid, same, subst IsValid (sym same) valid)),
  (λ h.
      let checked =
        validate_complete (apply_defaults b.config) (apply_defaults-IsValid b.config h.0) in
      ground (arith, checked, h.1)),
)
