-- ===== src/Config/PathStyle.antt =====
-- When a client is asked for path-style addressing.
use vire_fs.Base.{Bool, true, false, ◌||◌, none, some, Option, ◌≡◌, arith}
use vire_fs.Config.{
  Provider, provider_aws, provider_min_io, provider_r2, S3Config, apply_provider_defaults,
  ClientOptions, client_options,
}

-- MinIO and R2 want path-style addressing.
abbrev pub wants_path_style : Provider → Bool
wants_path_style provider_aws = false
wants_path_style provider_min_io = true
wants_path_style provider_r2 = true

-- An explicit value stands before the provider's default.
abbrev pub asked : Option Bool → Provider → Bool
asked none p = wants_path_style p
asked (some b) p = b

-- The options of a new client turn path-style addressing on exactly when the configuration sets
-- it, or leaves it unset for a provider that wants it; otherwise it stays as the SDK has it.
pub use_path_style-client_options :
    (cfg : S3Config) (o : ClientOptions)
    → (client_options (apply_provider_defaults cfg) o).use_path_style
      ≡ (asked cfg.use_path_style cfg.provider || o.use_path_style)
unfolding client_options apply_provider_defaults
use_path_style-client_options cfg o = ground arith
