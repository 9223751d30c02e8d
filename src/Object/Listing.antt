-- ===== src/Object/Listing.antt =====
-- objectfs.go: List, page by page. The loop ends when the client gives a last page, which nothing
-- bounds, so it takes fuel: the number of pages it may ask for.
use vire_fs.Base.{
  ℕ, zero, suc, true, false, not, ◌&&◌, Option, none, List, [], ◌∷◌, ◌++◌, map, if◌then◌else◌,
  length, take, drop, ltb, ◌-◌,
}
use vire_fs.Base.Int.{pos}
use vire_fs.Bytes.{Bytes, slash, equal, has_suffix}
use vire_fs.Errors.{op_error}
use vire_fs.Effect.{Action, Context, pure, ◌>>=◌, ◌>>◌, map_error, lift, check}
use vire_fs.Fs.{FileInfo}
use vire_fs.Key.{clean_key}
use vire_fs.Object.{Aws, ObjectFs, Object, ListObjectsInput, ListObjectsOutput, report}

pub data Listing : Type 0 where
  complete : List FileInfo → Listing
  unfinished : Listing

-- `strings.TrimSuffix(s, "/")`
unfoldable pub trim_slash : Bytes → Bytes
unfolding equal
trim_slash s = if has_suffix s (slash ∷ []) then take (length s - 1) s else s

module _ {W : Type 0} (o : ObjectFs W) where
  unfoldable pub s3_prefix : Bytes → Bytes
  unfolding equal
  s3_prefix cleaned =
      let p = o.base_prefix ++ cleaned in
      if not (equal p []) && not (has_suffix p (slash ∷ [])) then p ++ (slash ∷ []) else p

  -- A key of the bucket without the base prefix, if it is longer than that.
  unfoldable pub relative : Bytes → Bytes
  relative k = if ltb (length o.base_prefix) (length k) then drop (length o.base_prefix) k else k

  -- The parameters of the request for a page.
  abbrev pub page_input : Bytes → Option Bytes → ListObjectsInput
  page_input prefix token = record {
    bucket = o.bucket;
    prefix = prefix;
    delimiter = slash ∷ [];
    continuation_token = token;
  }

module _ (aws : Aws) {W : Type 0} (o : ObjectFs W) where
  abbrev pub object_info : Object → FileInfo
  object_info obj = record {
    key = relative o (aws.to_string obj.key);
    size = aws.to_int64 obj.size;
    last_modified = aws.to_time obj.last_modified;
    is_dir = false;
    content_type = [];
  }

  abbrev pub prefix_info : Option Bytes → FileInfo
  prefix_info cp = record {
    key = trim_slash (relative o (aws.to_string cp));
    size = pos 0;
    last_modified = 0;
    is_dir = true;
    content_type = [];
  }

  abbrev pub page_files : ListObjectsOutput → List FileInfo
  page_files out = map object_info out.contents ++ map prefix_info out.common_prefixes

  abbrev pub after_page :
      (Option Bytes → List FileInfo → Action W Listing)
      → List FileInfo
      → ListObjectsOutput
      → Action W Listing
  after_page next files out =
      if aws.to_bool out.is_truncated
      then next out.next_continuation_token (files ++ page_files out)
      else pure (complete (files ++ page_files out))

  -- `prefix` is the caller's, `p` the one in the bucket, `files` the result so far.
  unfoldable pub list_pages :
      Context W → Bytes → Bytes → ℕ → Option Bytes → List FileInfo → Action W Listing
  list_pages ctx prefix p zero token files = pure unfinished
  list_pages ctx prefix p (suc fuel) token files = do
    map_error (op_error "List" prefix) (check ctx)
    out ← report aws "List" prefix (o.client.list_objects ctx (page_input o p token))
    after_page (list_pages ctx prefix p fuel) files out

  unfoldable pub list : ℕ → Context W → Bytes → Action W Listing
  unfolding list_pages
  list fuel ctx prefix = do
    cleaned ← map_error (op_error "List" prefix) (lift (clean_key prefix))
    list_pages ctx prefix (s3_prefix o cleaned) fuel none []
