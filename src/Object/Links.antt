-- ===== src/Object/Links.antt =====
-- objectfs.go: presigned requests and Access.
use vire_fs.Base.{Bool, false, Option, none, some, [], ◌∷◌, ◌++◌, if◌then◌else◌, ◌==◌}
use vire_fs.Base.Int.{pos, negsuc}
use vire_fs.Bytes.{Bytes, slash, is_empty}
use vire_fs.Errors.{Error, sentinel, wrap, op_error, not_supported}
use vire_fs.Effect.{Action, Context, pure, fail, ◌>>=◌, map_error}
use vire_fs.Fs.{AccessInfo, PresignedRequest, AccessFunc, Duration}
use vire_fs.Object.{ObjectFs, PresignApi, SignedRequest, locate}
use vire_fs.Object.Objects.{input}

abbrev pub presigned : SignedRequest → PresignedRequest
presigned req = record { url = req.url; method = req.method; header = req.signed_header }

abbrev not_configured : Error
not_configured = wrap "%w: presign client not configured" [] (sentinel not_supported)

abbrev no_access : Error
no_access =
    wrap "%w: set WithAccessFunc, WithPresignClient, or WithBaseURL" [] (sentinel not_supported)

-- 15 minutes.
abbrev pub default_access_expires : Duration
default_access_expires = pos 900000000000

abbrev pub is_zero : Duration → Bool
is_zero (pos n) = n == 0
is_zero (negsuc n) = false

-- What the access function gives, if it is set.
abbrev pub ask : Option AccessFunc → Bytes → Option AccessInfo
ask none s3k = none
ask (some fn) s3k = fn s3k

module _ {W : Type 0} (o : ObjectFs W) where
  unfoldable pub presign_get : Context W → Bytes → Duration → Action W PresignedRequest
  presign_get ctx key expires = elim o.presign_client [
    | none ↦ fail (op_error "PresignGet" key not_configured)
    | some pc ↦ do
      s3k ← locate o "PresignGet" key
      req ← map_error (op_error "PresignGet" key) (pc.presign_get_object ctx (input o s3k) expires)
      pure (presigned req)
  ]

  unfoldable pub presign_put : Context W → Bytes → Duration → Action W PresignedRequest
  presign_put ctx key expires = elim o.presign_client [
    | none ↦ fail (op_error "PresignPut" key not_configured)
    | some pc ↦ do
      s3k ← locate o "PresignPut" key
      req ← map_error (op_error "PresignPut" key) (pc.presign_put_object ctx (input o s3k) expires)
      pure (presigned req)
  ]

  abbrev pub expiry : Duration
  expiry = if is_zero o.access_expires then default_access_expires else o.access_expires

  -- Access by the base URL.
  abbrev pub by_base_url : Bytes → Bytes → Action W AccessInfo
  by_base_url key s3k =
      if is_empty o.base_url
      then fail (op_error "Access" key no_access)
      else pure (record { path = []; url = o.base_url ++ (slash ∷ s3k) })

  -- Access by the presign client, or else by the base URL.
  abbrev pub by_presign : Context W → Bytes → Bytes → Option (PresignApi W) → Action W AccessInfo
  by_presign ctx key s3k none = by_base_url key s3k
  by_presign ctx key s3k (some pc) = do
    req ← map_error (op_error "Access" key) (pc.presign_get_object ctx (input o s3k) expiry)
    pure (record { path = []; url = req.url })

  -- Access by what the access function gives, or else by the presign client.
  abbrev pub by_func : Context W → Bytes → Bytes → Option AccessInfo → Action W AccessInfo
  by_func ctx key s3k (some info) = pure info
  by_func ctx key s3k none = by_presign ctx key s3k o.presign_client

  unfoldable pub access : Context W → Bytes → Action W AccessInfo
  access ctx key = do s3k ← locate o "Access" key; by_func ctx key s3k (ask o.access_func s3k)
