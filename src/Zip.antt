-- ===== src/Zip.antt =====
-- plugin/zip: zipfs.go, a read-only store in a zip archive. Its contents are an index from clean
-- keys to the entries of the archive, which package archive/zip gives.
pub mod Archive
pub mod Open
pub mod Handles
pub mod Sizes
pub mod Index
pub mod Confined
pub mod Listing
pub mod Contents
pub mod Rounds
pub mod Written
pub mod RoundTrip
pub mod Readers
pub mod Store
use mathlib.Core.List.{foldl}
use vire_fs.Base.{
  ℕ, suc, Bool, true, false, not, ◌&&◌, ◌||◌, Option, none, some, List, [], ◌∷◌, ◌++◌,
  if◌then◌else◌, length, drop,
}
use vire_fs.Base.Int.{pos, to_int64}
use vire_fs.Bytes.{Bytes, slash, equal, is_empty, has_prefix, contains, before_slash}
use vire_fs.Dict.{lookup, insert}
use vire_fs.Errors.{Error, sentinel, op_error, not_found, not_supported, Result, ok, err}
use vire_fs.Effect.{Action, Context, pure, fail, ◌>>=◌, map_error, lift}
use vire_fs.Fs.{FileInfo, no_info, ReadCloser, Reader, PutOption, AccessInfo, Time}
use vire_fs.GoPath.{ext}
use vire_fs.Key.{clean_key}

-- An entry of an archive, `*zip.File`, as far as the store reads it.
pub record ZipFile (W : Type 0) : Type 0 where
  pub name : Bytes
  pub is_dir : Bool
  pub uncompressed_size : ℕ
  pub modified : Time
  pub open_file : Action W (ReadCloser W)

abbrev pub Index : Type 0 → Type 0
Index W = List (Bytes × ZipFile W)

pub record ZipFs (W : Type 0) : Type 0 where
  pub files : List (ZipFile W)
  pub closer : Option (Action W (Unit {0}))
  pub index : Index W

module _ {W : Type 0} where
  -- One round of the loop, at the clean name of the entry.
  abbrev pub index_as : Result Bytes → ZipFile W → Index W → Index W
  index_as (err e) f idx = idx
  index_as (ok key) f idx = if is_empty key then idx else insert key f idx

  abbrev pub index_file : Index W → ZipFile W → Index W
  index_file idx f = index_as (clean_key f.name) f idx

  unfoldable pub build_index : List (ZipFile W) → Index W
  build_index files = foldl index_file [] files

  -- `NewFS`, on what zip.NewReader gives.
  abbrev pub new_fs : Action W (List (ZipFile W)) → Action W (ZipFs W)
  new_fs new_reader = do
    files ← new_reader
    pure (record { files = files; closer = none; index = build_index files })

  abbrev pub found : {A : Type 0} → Option A → Action W A
  found none = fail (sentinel not_found)
  found (some f) = pure f

abbrev close_by : {W : Type 0} → Option (Action W (Unit {0})) → Action W (Unit {0})
close_by none = pure tt
close_by (some c) = c

abbrev pub is_seen : Bytes → List Bytes → Bool
is_seen key [] = false
is_seen key (k ∷ seen) = equal key k || is_seen key seen

-- What `k` goes on with below the prefix.
abbrev pub rest_of : Bytes → Bytes → Option Bytes
rest_of prefix k =
    if is_empty prefix
    then some k
    else if has_prefix k (prefix ++ (slash ∷ []))
    then some (drop (suc (length prefix)) k)
    else none

abbrev pub below : Bytes → Bytes → Bytes
below prefix name = if is_empty prefix then name else prefix ++ (slash ∷ name)

-- One round of the loop of List: the directories seen and the entries so far.
abbrev pub list_dir : Bytes → List Bytes × List FileInfo → List Bytes × List FileInfo
list_dir dir_key (seen, entries) =
    if is_seen dir_key seen
    then (seen, entries)
    else (dir_key ∷ seen, entries ++ record no_info { key = dir_key; is_dir = true } ∷ [])

module _ {W : Type 0} where
  abbrev pub is_some : Option (ZipFile W) → Bool
  is_some none = false
  is_some (some f) = true

module _ {W : Type 0} (z : ZipFs W) where
  unfoldable pub get : Context W → Bytes → Action W (ReadCloser W)
  get ctx key = do
    cleaned ← map_error (op_error "Get" key) (lift (clean_key key))
    f ← map_error (op_error "Get" key) (found (lookup cleaned z.index))
    map_error (op_error "Get" key) f.open_file

  unfoldable pub put : Context W → Bytes → Reader W → List PutOption → Action W (Unit {0})
  put ctx key r opts = fail (op_error "Put" key (sentinel not_supported))

  unfoldable pub delete : Context W → Bytes → Action W (Unit {0})
  delete ctx key = fail (op_error "Delete" key (sentinel not_supported))

  unfoldable pub exists : Context W → Bytes → Action W Bool
  exists ctx key = do
    cleaned ← map_error (op_error "Exists" key) (lift (clean_key key))
    pure (is_some (lookup cleaned z.index))

  unfoldable pub access : Context W → Bytes → Action W AccessInfo
  access ctx key = fail (op_error "Access" key (sentinel not_supported))

  -- `Close`
  unfoldable pub close : Action W (Unit {0})
  close = close_by z.closer

-- The parameter is `mime.TypeByExtension`.
module _ {W : Type 0} (type_by_extension : Bytes → Bytes) where
  abbrev pub file_info : Bytes → ZipFile W → FileInfo
  file_info key f = record {
    key = key;
    size = to_int64 f.uncompressed_size;
    last_modified = f.modified;
    is_dir = f.is_dir;
    content_type = type_by_extension (ext key);
  }

  abbrev pub list_entry :
      Bytes
      → Bytes
      → ZipFile W
      → Option Bytes
      → List Bytes × List FileInfo
      → List Bytes × List FileInfo
  list_entry prefix k f none s = s
  list_entry prefix k f (some rest) s =
      if contains rest (slash ∷ [])
      then list_dir (below prefix (before_slash rest)) s
      else (s.0, s.1 ++ file_info k f ∷ [])

  unfoldable pub list_index : Bytes → Index W → List Bytes × List FileInfo → List FileInfo
  unfolding equal
  list_index prefix [] s = s.1
  list_index prefix ((k, f) ∷ idx) s =
      list_index prefix idx (list_entry prefix k f (rest_of prefix k) s)

  -- `order` is the order in which the loop goes over the index.
  unfoldable pub list : (Index W → Index W) → ZipFs W → Context W → Bytes → Action W (List FileInfo)
  unfolding list_index
  list order z ctx prefix = do
    cleaned ← map_error (op_error "List" prefix) (lift (clean_key prefix))
    pure (list_index cleaned (order z.index) ([], []))

  unfoldable pub stat : ZipFs W → Context W → Bytes → Action W FileInfo
  stat z ctx key = do
    cleaned ← map_error (op_error "Stat" key) (lift (clean_key key))
    f ← map_error (op_error "Stat" key) (found (lookup cleaned z.index))
    pure (file_info cleaned f)
