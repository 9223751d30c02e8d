-- ===== src/Tests/Bucket.antt =====
-- A bucket for the tests: an S3 client over the world of Memory, with a listing of two pages.
use mathlib.Core.List.{foldl}
use vire_fs.Base.{true, false, Option, none, some, [], ◌∷◌, ◌++◌, ◌==◌, length, drop}
use vire_fs.Base.Int.{pos}
use vire_fs.Bytes.{Bytes, codes}
use vire_fs.Dict.{lookup, erase, insert}
use vire_fs.Errors.{Result, ok, err, foreign}
use vire_fs.Object.{
  Aws, Object, ObjectFs, S3Api, PresignApi, ListObjectsOutput, HeadObjectOutput, new_object_fs,
  with_prefix, with_presign_client,
}
use vire_fs.Fs.{ReadCloser}
use vire_fs.Tests.Memory.{World, store}

abbrev or_zero {ℓ} : {A : Type ℓ} → A → Option A → A
or_zero z none = z
or_zero z (some a) = a

-- Error 1 is a `NoSuchKey`.
abbrev pub sdk : Aws
sdk = record {
  as_no_such_key = λ n. n == 1;
  as_not_found = λ n. false;
  as_api_error = λ n. none;
  to_string = or_zero [];
  to_int64 = or_zero (pos 0);
  to_time = or_zero 0;
  to_bool = or_zero false;
}

abbrev object_at : Bytes → Object
object_at key = record { key = some key; size = some (pos 1); last_modified = none }

abbrev page_of : Option Bytes → ListObjectsOutput
page_of none = record {
  contents = object_at (codes "u/a") ∷ [];
  common_prefixes = [];
  is_truncated = some true;
  next_continuation_token = some (codes "t");
}
page_of (some token) = record {
  contents = object_at (codes "u/b") ∷ [];
  common_prefixes = some (codes "u/d/") ∷ [];
  is_truncated = none;
  next_continuation_token = none;
}

abbrev head_of : Option Bytes → Result HeadObjectOutput
head_of none = err (foreign 1)
head_of (some b) =
    ok
      (record { content_length = some (pos (length b)); last_modified = none; content_type = none })

abbrev pub body_of : Option Bytes → Result (ReadCloser World)
body_of none = err (foreign 1)
body_of (some b) = ok (record { read = λ v. ((b, none), v); close = λ v. v })

-- A copy from the bucket `b`.
abbrev pub copy_to : Bytes → Option Bytes → World → Result (Unit {0}) × World
copy_to key none w = (err (foreign 1), w)
copy_to key (some b) w = (ok tt, insert key b w)

abbrev pub client : S3Api World
client = record {
  get_object = λ ctx input w. (body_of (lookup input.key w), w);
  put_object = λ ctx input w. store input.key (input.body w);
  delete_object = λ ctx input w. (ok tt, erase input.key w);
  delete_objects = λ ctx input w. (ok [], foldl (λ v key. erase key v) w input.objects);
  head_object = λ ctx input w. (head_of (lookup input.key w), w);
  list_objects = λ ctx input w. (ok (page_of input.continuation_token), w);
  copy_object = λ ctx input w. copy_to input.key (lookup (drop 2 input.copy_source) w) w;
}

abbrev signer : PresignApi World
signer = record {
  presign_get_object = λ ctx input expires w. (
    ok (record {
      url = codes "https://s3/" ++ input.key;
      method = codes "GET";
      signed_header = [];
    }),
    w,
  );
  presign_put_object = λ ctx input expires w. (err (foreign 9), w);
}

abbrev pub bucket : ObjectFs World
bucket =
    new_object_fs client (codes "b") (with_prefix (codes "u/") ∷ with_presign_client signer ∷ [])

-- A bucket whose prefix does not end with a slash.
abbrev pub unslashed : ObjectFs World
unslashed = new_object_fs client (codes "b") (with_prefix (codes "u") ∷ [])
