-- ===== src/Tests/ConfigTests.antt =====
-- Configurations.
use vire_fs.Base.{Bool, false, Option, none, some, [], ◌∷◌, ◌≡◌, refl}
use vire_fs.Bytes.{codes}
use vire_fs.Config.{
  Provider, provider_min_io, provider_r2, S3Config, apply_provider_defaults, ClientOptions,
  client_options, load_options, with_region, with_static_credentials,
}
use vire_fs.Config.PathStyle.{use_path_style-client_options}

abbrev config : Provider → Option Bool → S3Config
config provider style = record {
  region = [];
  endpoint = codes "http://localhost:9000";
  bucket = codes "b";
  access_key = codes "k";
  secret_key = codes "s";
  provider = provider;
  use_path_style = style;
}

abbrev virtual_hosted : S3Config
virtual_hosted = config provider_r2 (some false)

abbrev untouched : ClientOptions
untouched = record { base_endpoint = none; use_path_style = false; checksum_when_required = false }

switched_off :
    (client_options (apply_provider_defaults virtual_hosted) untouched).use_path_style ≡ false
switched_off = use_path_style-client_options virtual_hosted untouched

loaded :
    load_options (apply_provider_defaults (config provider_r2 none))
    ≡ with_region (codes "auto") ∷ with_static_credentials (codes "k") (codes "s") ∷ []
unfolding apply_provider_defaults
loaded = refl

-- MinIO has no default region.
no_region :
    load_options (apply_provider_defaults (config provider_min_io none))
    ≡ with_static_credentials (codes "k") (codes "s") ∷ []
unfolding apply_provider_defaults
no_region = refl
