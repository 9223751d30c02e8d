-- ===== src/Local/Operations.antt =====
-- localfs.go: the operations.
use Prim.Native.String.{String}
use vire_fs.Base.{ℕ, Bool, true, false, Option, none, some, List, [], ◌∷◌, ◌++◌, if◌then◌else◌}
use vire_fs.Bytes.{Bytes, codes, slash, is_empty}
use vire_fs.Errors.{op_error, Result, ok, err}
use vire_fs.Effect.{Action, Context, pure, ◌>>=◌, ◌>>◌, map_error, lift, check, deferred, on_error}
use vire_fs.Fs.{Fs, FileInfo, ReadCloser, Reader, PutOption, AccessInfo, AccessFunc, io_copy}
use vire_fs.GoPath.{join_path, dir, ext}
use vire_fs.Key.{clean_key}
use vire_fs.Local.{
  Os, LocalFs, TempFile, DirEntry, OsInfo, full_path, map_os_error, os_test, apply_key_func,
}

abbrev pub url_of : Option AccessInfo → Bytes
url_of none = []
url_of (some extra) = extra.url

abbrev pub extra_url : Option AccessFunc → Bytes → Bytes
extra_url none cleaned = []
extra_url (some fn) cleaned = url_of (fn cleaned)

-- `cleaned, _ := CleanKey(key)`
abbrev pub or_empty : Result Bytes → Bytes
or_empty (ok cleaned) = cleaned
or_empty (err e) = []

module _ {W : Type 0} (os : Os W) (l : LocalFs) where
  -- What every operation begins with: the context, then the path.
  abbrev pub start : String → Context W → Bytes → Action W Bytes
  start op ctx key = do
    map_error (op_error op key) (check ctx)
    map_error (op_error op key) (full_path os l key)

  -- A call of the operating system whose error is mapped.
  abbrev pub mapped : {A : Type 0} → String → Bytes → Action W A → Action W A
  mapped op key m = map_error (λ e. op_error op key (map_os_error os e)) m

  unfoldable pub get : Context W → Bytes → Action W (ReadCloser W)
  get ctx key = do p ← start "Get" ctx key; mapped "Get" key (os.open_file p)

  -- Writing without a temporary file.
  unfoldable pub put_plain : Bytes → Bytes → Reader W → Action W (Unit {0})
  put_plain p key r = do
    f ← map_error (op_error "Put" key) (os.create p)
    deferred (λ w. (f.close w).1) (map_error (op_error "Put" key) (io_copy f.write r))

  -- The steps of `putAtomic` with the temporary file, each of which removes it if it fails.
  unfoldable pub write_temp : TempFile W → Reader W → Action W (Unit {0})
  write_temp tmp r w =
      on_error (λ v. (os.remove tmp.name (tmp.file.close v).1).1) (io_copy tmp.file.write r w)

  unfoldable pub close_temp : TempFile W → Action W (Unit {0})
  close_temp tmp w = on_error (λ v. (os.remove tmp.name v).1) (tmp.file.close w)

  unfoldable pub rename_temp : TempFile W → Bytes → Action W (Unit {0})
  rename_temp tmp target w = on_error (λ v. (os.remove tmp.name v).1) (os.rename tmp.name target w)

  unfoldable pub fill_temp : Bytes → Reader W → TempFile W → Action W (Unit {0})
  unfolding write_temp close_temp rename_temp
  fill_temp target r tmp = do write_temp tmp r; close_temp tmp; rename_temp tmp target

  unfoldable pub put_atomic : Bytes → Bytes → Bytes → Reader W → Action W (Unit {0})
  unfolding fill_temp
  put_atomic target parent key r =
      map_error (op_error "Put" key)
        (os.create_temp parent (codes ".virefs-tmp-*") >>= fill_temp target r)

  unfoldable pub put : Context W → Bytes → Reader W → List PutOption → Action W (Unit {0})
  unfolding put_plain put_atomic
  put ctx key r opts = do
    p ← start "Put" ctx key
    map_error (op_error "Put" key) (os.mkdir_all (dir p) l.dir_perm)
    if l.atomic_write then put_atomic p (dir p) key r else put_plain p key r

  unfoldable pub delete : Context W → Bytes → Action W (Unit {0})
  delete ctx key = do p ← start "Delete" ctx key; mapped "Delete" key (os.remove p)

  -- The directory of a clean prefix.
  abbrev pub list_dir : Bytes → Bytes
  list_dir prefix = if is_empty prefix then l.root else join_path l.root prefix

  abbrev pub entry_key : Bytes → Bytes → Bytes
  entry_key prefix name = if is_empty prefix then name else prefix ++ (slash ∷ name)

  -- An entry whose Info fails is left out.
  abbrev pub entry_info : Bytes → DirEntry W → Result OsInfo → List FileInfo
  entry_info prefix e (err _) = []
  entry_info prefix e (ok info) =
      record {
        key = entry_key prefix e.name;
        size = info.size;
        last_modified = info.mod_time;
        is_dir = e.is_dir;
        content_type = [];
      }
      ∷ []

  unfoldable pub list_entries : Bytes → List (DirEntry W) → Action W (List FileInfo)
  list_entries prefix [] w = (ok [], w)
  list_entries prefix (e ∷ es) w =
      let (r, v) = e.info w in
      (list_entries prefix es >>= λ rest. pure (entry_info prefix e r ++ rest)) v

  unfoldable pub list : Context W → Bytes → Action W (List FileInfo)
  unfolding list_entries
  list ctx prefix = do
    map_error (op_error "List" prefix) (check ctx)
    cleaned ← map_error (op_error "List" prefix) (lift (clean_key prefix))
    entries ← mapped "List" prefix (os.read_dir (list_dir cleaned))
    list_entries cleaned entries

  -- The parameter is `mime.TypeByExtension`.
  unfoldable pub stat : (Bytes → Bytes) → Context W → Bytes → Action W FileInfo
  stat type_by_extension ctx key = do
    p ← start "Stat" ctx key
    info ← mapped "Stat" key (os.stat p)
    pure (record {
      key = key;
      size = info.size;
      last_modified = info.mod_time;
      is_dir = info.is_dir;
      content_type = type_by_extension (ext key);
    })

  abbrev pub stat_answer : Bytes → Result OsInfo × W → Result Bool × W
  stat_answer key (ok info, w) = (ok true, w)
  stat_answer key (err e, w) =
      (if os_test os os.is_not_exist e then ok false else err (op_error "Exists" key e), w)

  unfoldable pub exists : Context W → Bytes → Action W Bool
  exists ctx key = do p ← start "Exists" ctx key; λ w. stat_answer key (os.stat p w)

  unfoldable pub access : Context W → Bytes → Action W AccessInfo
  access ctx key = do
    p ← start "Access" ctx key
    pure (record {
      path = p;
      url = extra_url l.access_func (apply_key_func l.key_func (or_empty (clean_key key)));
    })

  -- The rest of Copy, once the source is open.
  unfoldable pub copy_from : Bytes → Bytes → ReadCloser W → Action W (Unit {0})
  copy_from dst_key dst_path sf = map_error (op_error "Copy" dst_key) (
      os.mkdir_all (dir dst_path) l.dir_perm >> os.create dst_path >>= λ df.
      deferred (λ w. (df.close w).1) (io_copy df.write sf.read))

  unfoldable pub copy : Context W → Bytes → Bytes → Action W (Unit {0})
  unfolding copy_from
  copy ctx src_key dst_key = do
    src_path ← start "Copy" ctx src_key
    dst_path ← map_error (op_error "Copy" dst_key) (full_path os l dst_key)
    sf ← mapped "Copy" src_key (os.open_file src_path)
    deferred sf.close (copy_from dst_key dst_path sf)

-- The store as one of the interface: it has a native copy, and no batch deletion.
unfoldable pub as_fs : {W : Type 0} → Os W → (Bytes → Bytes) → ℕ → LocalFs → Fs W
unfolding get put delete list stat exists access copy
as_fs os type_by_extension identity l = record {
  identity = identity;
  get = get os l;
  put = put os l;
  delete = delete os l;
  list = list os l;
  stat = stat os l type_by_extension;
  access = access os l;
  exists = exists os l;
  copier = some (copy os l);
  batch_deleter = none;
}
