-- ===== src/Config.antt =====
-- s3config.go: from an `S3Config` to a client and a store. What the SDK builds is a parameter; the
-- model has what the code asks it to build.
pub mod PathStyle
use vire_fs.Base.{
  Bool, true, false, not, ◌&&◌, Option, none, some, List, [], ◌∷◌, ◌++◌, if◌then◌else◌,
}
use vire_fs.Bytes.{Bytes, codes, is_empty}
use vire_fs.Errors.{Error, message, wrap}
use vire_fs.Effect.{Action, Context, pure, fail, ◌>>=◌, map_error}
use vire_fs.Object.{S3Api, PresignApi, ObjectFs, ObjectOption, new_object_fs, with_presign_client}

pub data Provider : Type 0 where
  provider_aws provider_min_io provider_r2 : Provider

-- `none` is a nil pointer.
pub record S3Config : Type 0 where
  pub region : Bytes
  pub endpoint : Bytes
  pub bucket : Bytes
  pub access_key : Bytes
  pub secret_key : Bytes
  pub provider : Provider
  pub use_path_style : Option Bool

abbrev pub or_path_style : Option Bool → Option Bool
or_path_style none = some true
or_path_style (some b) = some b

abbrev pub or_region : Bytes → Bytes → Bytes
or_region region default = if is_empty region then default else region

abbrev pub defaults_of : Provider → S3Config → S3Config
defaults_of provider_min_io cfg = record cfg { use_path_style = or_path_style cfg.use_path_style }
defaults_of provider_r2 cfg = record cfg {
  use_path_style = or_path_style cfg.use_path_style;
  region = or_region cfg.region (codes "auto");
}
defaults_of provider_aws cfg = record cfg { region = or_region cfg.region (codes "us-east-1") }

unfoldable pub apply_provider_defaults : S3Config → S3Config
apply_provider_defaults cfg = defaults_of cfg.provider cfg

-- An option of `config.LoadDefaultConfig`; static credentials have no session token.
pub data LoadOption : Type 0 where
  with_region : Bytes → LoadOption
  with_static_credentials : Bytes → Bytes → LoadOption

-- The part of `s3.Options` that the code sets; the last field says whether the request checksum is
-- calculated only when required.
pub record ClientOptions : Type 0 where
  pub base_endpoint : Option Bytes
  pub use_path_style : Bool
  pub checksum_when_required : Bool

abbrev pub load_options : S3Config → List LoadOption
load_options resolved =
    (if is_empty resolved.region then [] else with_region resolved.region ∷ [])
    ++ (if not (is_empty resolved.access_key) && not (is_empty resolved.secret_key)
        then with_static_credentials resolved.access_key resolved.secret_key ∷ []
        else [])

abbrev set_endpoint : Bytes → ClientOptions → ClientOptions
set_endpoint endpoint o =
    if is_empty endpoint then o else record o { base_endpoint = some endpoint }

abbrev set_path_style : Option Bool → ClientOptions → ClientOptions
set_path_style none o = o
set_path_style (some b) o = if b then record o { use_path_style = true } else o

abbrev set_checksum : Provider → ClientOptions → ClientOptions
set_checksum provider_min_io o = record o { checksum_when_required = true }
set_checksum provider_aws o = o
set_checksum provider_r2 o = o

-- The option function that NewS3Client gives to `s3.NewFromConfig`.
unfoldable pub client_options : S3Config → ClientOptions → ClientOptions
client_options resolved o =
    set_checksum resolved.provider
      (set_path_style resolved.use_path_style (set_endpoint resolved.endpoint o))

-- The calls of the SDK, with `A` for its configuration and `C` for its client.
pub record Sdk (W A C : Type 0) : Type 0 where
  pub load_default_config : Context W → List LoadOption → Action W A
  pub new_from_config : A → (ClientOptions → ClientOptions) → C
  pub new_presign_client : C → PresignApi W
  pub as_api : C → S3Api W

abbrev nil_config : Error
nil_config = message "virefs: S3Config must not be nil" []

module _ {W A C : Type 0} (sdk : Sdk W A C) (ctx : Context W) where
  abbrev pub client_of : S3Config → Action W C
  client_of resolved = do
    aws_cfg ←
        map_error (wrap "virefs: load aws config: %w" [])
          (sdk.load_default_config ctx (load_options resolved))
    pure (sdk.new_from_config aws_cfg (client_options resolved))

  unfoldable pub new_s3_client : Option S3Config → Action W C
  new_s3_client none = fail nil_config
  new_s3_client (some cfg) = client_of (apply_provider_defaults cfg)

  unfoldable pub new_object_fs_from_config :
      Option S3Config → List (ObjectOption W) → Action W (ObjectFs W)
  unfolding new_s3_client
  new_object_fs_from_config none opts = fail nil_config
  new_object_fs_from_config (some cfg) opts =
      if is_empty cfg.bucket
      then fail (message "virefs: S3Config.Bucket must not be empty" [])
      else do
        client ← new_s3_client (some cfg)
        pure (
            new_object_fs (sdk.as_api client) cfg.bucket
              (with_presign_client (sdk.new_presign_client client) ∷ opts))
