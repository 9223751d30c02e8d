-- ===== src/Object.antt =====
-- objectfs.go: `ObjectFS`, a store in a bucket of an S3 client. This file has the client, the
-- store with its options, and what all operations share: the key in the bucket and the error.
pub mod Objects
pub mod Listing
pub mod Bulk
pub mod Links
pub mod Keys
pub mod Presence
pub mod Entries
pub mod Pages
pub mod Batches
pub mod Progress
pub mod Access
pub mod Interface
pub mod Store
use mathlib.Core.List.{foldl}
use vire_fs.Base.{
  ℕ, Bool, true, false, ◌||◌, Option, none, some, List, [], ◌∷◌, ◌++◌, if◌then◌else◌,
}
use vire_fs.Base.Int.{ℤ, pos}
use vire_fs.Bytes.{Bytes, codes, equal, trim_right}
use Prim.Native.String.{String}
use vire_fs.Errors.{Error, sentinel, foreign, message, wrap, op_error, not_found, Result, ok, err}
use vire_fs.Effect.{Action, Context, map_error, lift}
use vire_fs.Fs.{KeyFunc, AccessFunc, Reader, ReadCloser, Time, Duration}
use vire_fs.Key.{clean_key}

-- What the store uses of the SDK besides its clients: whether `errors.As` finds a `NoSuchKey`, a
-- `NotFound` or an API error (with its code) at an error of the SDK, and the readers of pointers.
pub record Aws : Type 0 where
  pub as_no_such_key : ℕ → Bool
  pub as_not_found : ℕ → Bool
  pub as_api_error : ℕ → Option Bytes
  pub to_string : Option Bytes → Bytes
  pub to_int64 : Option ℤ → ℤ
  pub to_time : Option Time → Time
  pub to_bool : Option Bool → Bool

-- The parameters of the client's calls. A pointer that is always set, as by `aws.String`, is the
-- value; one that may be nil is an option.
pub record ObjectInput : Type 0 where
  pub bucket : Bytes
  pub key : Bytes

pub record PutObjectInput (W : Type 0) : Type 0 where
  pub bucket : Bytes
  pub key : Bytes
  pub body : Reader W
  pub content_type : Option Bytes
  pub metadata : Option (List (Bytes × Bytes))

pub record ListObjectsInput : Type 0 where
  pub bucket : Bytes
  pub prefix : Bytes
  pub delimiter : Bytes
  pub continuation_token : Option Bytes

pub record CopyObjectInput : Type 0 where
  pub bucket : Bytes
  pub copy_source : Bytes
  pub key : Bytes

pub record DeleteObjectsInput : Type 0 where
  pub bucket : Bytes
  pub objects : List Bytes
  pub quiet : Bool

-- The results, as far as the store reads them.
pub record Object : Type 0 where
  pub key : Option Bytes
  pub size : Option ℤ
  pub last_modified : Option Time

pub record ListObjectsOutput : Type 0 where
  pub contents : List Object
  pub common_prefixes : List (Option Bytes)
  pub is_truncated : Option Bool
  pub next_continuation_token : Option Bytes

pub record HeadObjectOutput : Type 0 where
  pub content_length : Option ℤ
  pub last_modified : Option Time
  pub content_type : Option Bytes

pub record DeleteError : Type 0 where
  pub key : Option Bytes
  pub code : Option Bytes
  pub text : Option Bytes

pub record SignedRequest : Type 0 where
  pub url : Bytes
  pub method : Bytes
  pub signed_header : List (Bytes × List Bytes)

-- The interface `S3API`.
pub record S3Api (W : Type 0) : Type 0 where
  pub get_object : Context W → ObjectInput → Action W (ReadCloser W)
  pub put_object : Context W → PutObjectInput W → Action W (Unit {0})
  pub delete_object : Context W → ObjectInput → Action W (Unit {0})
  pub delete_objects : Context W → DeleteObjectsInput → Action W (List DeleteError)
  pub head_object : Context W → ObjectInput → Action W HeadObjectOutput
  pub list_objects : Context W → ListObjectsInput → Action W ListObjectsOutput
  pub copy_object : Context W → CopyObjectInput → Action W (Unit {0})

-- The interface `PresignAPI`; the duration is the `Expires` that the option sets.
pub record PresignApi (W : Type 0) : Type 0 where
  pub presign_get_object : Context W → ObjectInput → Duration → Action W SignedRequest
  pub presign_put_object : Context W → ObjectInput → Duration → Action W SignedRequest

pub record ObjectFs (W : Type 0) : Type 0 where
  pub client : S3Api W
  pub bucket : Bytes
  pub base_prefix : Bytes
  pub key_func : Option KeyFunc
  pub presign_client : Option (PresignApi W)
  pub base_url : Bytes
  pub access_expires : Duration
  pub access_func : Option AccessFunc

abbrev pub ObjectOption : Type 0 → Type 0
ObjectOption W = ObjectFs W → ObjectFs W

module _ {W : Type 0} where
  abbrev pub with_prefix : Bytes → ObjectOption W
  with_prefix prefix o = record o { base_prefix = prefix }

  abbrev pub with_object_key_func : KeyFunc → ObjectOption W
  with_object_key_func fn o = record o { key_func = some fn }

  abbrev pub with_presign_client : PresignApi W → ObjectOption W
  with_presign_client pc o = record o { presign_client = some pc }

  abbrev pub with_base_url : Bytes → ObjectOption W
  with_base_url url o = record o { base_url = trim_right url }

  abbrev pub with_access_expires : Duration → ObjectOption W
  with_access_expires d o = record o { access_expires = d }

  abbrev pub with_access_func : AccessFunc → ObjectOption W
  with_access_func fn o = record o { access_func = some fn }

  abbrev pub new_object_fs : S3Api W → Bytes → List (ObjectOption W) → ObjectFs W
  new_object_fs client bucket opts =
      foldl (λ o fn. fn o)
        (record {
          client = client;
          bucket = bucket;
          base_prefix = [];
          key_func = none;
          presign_client = none;
          base_url = [];
          access_expires = pos 0;
          access_func = none;
        })
        opts

abbrev pub apply_key_func : Option KeyFunc → KeyFunc
apply_key_func none cleaned = cleaned
apply_key_func (some fn) cleaned = fn cleaned

abbrev pub place : {W : Type 0} → ObjectFs W → Result Bytes → Result Bytes
place o (ok cleaned) = ok (o.base_prefix ++ apply_key_func o.key_func cleaned)
place o (err e) = err e

unfoldable pub s3_key : {W : Type 0} → ObjectFs W → Bytes → Result Bytes
s3_key o key = place o (clean_key key)

-- `errors.As` for a type of the SDK's errors.
abbrev pub errors_as : (ℕ → Bool) → Error → Bool
errors_as p (sentinel s) = false
errors_as p (foreign n) = p n
errors_as p (message _ _) = false
errors_as p (wrap _ _ e) = errors_as p e
errors_as p (op_error _ _ e) = errors_as p e

-- The code of the first API error in the chain.
abbrev pub error_code : (ℕ → Option Bytes) → Error → Option Bytes
error_code f (sentinel s) = none
error_code f (foreign n) = f n
error_code f (message _ _) = none
error_code f (wrap _ _ e) = error_code f e
error_code f (op_error _ _ e) = error_code f e

abbrev pub is_missing_code : Option Bytes → Bool
is_missing_code none = false
is_missing_code (some code) = equal code (codes "NotFound") || equal code (codes "NoSuchKey")

module _ (aws : Aws) where
  unfoldable pub map_s3_error : Error → Error
  unfolding equal
  map_s3_error e =
      if errors_as aws.as_no_such_key e
      then sentinel not_found
      else if errors_as aws.as_not_found e
      then sentinel not_found
      else if is_missing_code (error_code aws.as_api_error e)
      then sentinel not_found
      else e

  -- A call of the client, with the context that the operation `op` adds to its error.
  abbrev pub report : {W A : Type 0} → String → Bytes → Action W A → Action W A
  report op key m = map_error (λ e. op_error op key (map_s3_error e)) m

-- The key in the bucket, with the context that the operation `op` adds to its error.
abbrev pub locate : {W : Type 0} → ObjectFs W → String → Bytes → Action W Bytes
locate o op key = map_error (op_error op key) (lift (s3_key o key))
