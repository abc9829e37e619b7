-- ===== src/Config/Tests.antt =====
-- src/config.rs: validation, corrections and the builder on a sample configuration.
use netconnpool_rust.Base.{◌≡◌, ◌↔◌, ok}
use netconnpool_rust.Config.{validate, apply_defaults}
use netconnpool_rust.Config.Builder.{ConfigBuilder, build}
use netconnpool_rust.Config.Validity.{IsValid, IsBuildable, validate_iff, build_iff}
use netconnpool_rust.Samples.{config}

abbrev builder : ConfigBuilder
builder = record { config = config }

validate_iff_example : (validate config ≡ ok tt) ↔ IsValid config
validate_iff_example = validate_iff config

build_iff_example :
    (build builder ≡ ok config)
    ↔ (IsBuildable config × (config ≡ apply_defaults config) × IsValid config)
build_iff_example = build_iff builder config
