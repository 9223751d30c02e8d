-- ===== src/Mount.antt =====
-- mount.go: the mount table, and the store that it makes of the mounted ones.
pub mod Routing
pub mod Table
pub mod Forward
pub mod Calls
pub mod Races
pub mod Parts
pub mod Store
use vire_fs.Base.{
  ℕ, Bool, true, false, ◌||◌, Option, none, some, List, [], ◌∷◌, map, if◌then◌else◌, ◌==◌,
}
use vire_fs.Base.Int.{pos}
use vire_fs.Bytes.{Bytes, slash, equal, contains, before_slash, after_slash}
use vire_fs.Dict.{lookup, insert, erase}
use vire_fs.Errors.{Error, sentinel, not_found, invalid_key, wrap, Result, ok, err}
use vire_fs.Effect.{Action, Context, pure, fail, lift, ◌>>=◌, ◌>>◌, then_run, check}
use vire_fs.Key.{clean_key}
use vire_fs.Fs.{
  Fs, FileInfo, no_info, Reader, ReadCloser, PutOption, AccessInfo, native_copier, transfer,
}

-- The table is read and written under its lock: every lookup and every change sees one table.
pub record MountTable (W : Type 0) : Type 0 where
  pub mounts : List (Bytes × Fs W)

abbrev pub mount_error : Bytes → Error
mount_error prefix =
    wrap "%w: mount prefix must be a single non-empty segment, got %q" (prefix ∷ [])
      (sentinel invalid_key)

module _ {W : Type 0} where
  unfoldable pub new_mount_table : MountTable W
  new_mount_table = record { mounts = [] }

  -- `Mount`: the new table, or the error with the table as it was.
  unfoldable pub mount : Bytes → Fs W → MountTable W → Result (Unit {0}) × MountTable W
  unfolding equal
  mount prefix fs mt =
      if equal prefix [] || contains prefix (slash ∷ [])
      then (err (mount_error prefix), mt)
      else (ok tt, record { mounts = insert prefix fs mt.mounts })

  unfoldable pub unmount : Bytes → MountTable W → MountTable W
  unmount prefix mt = record { mounts = erase prefix mt.mounts }

  -- The end of `resolve`: what the table has at the prefix, with the rest of the key.
  abbrev pub mounted_at : Option (Fs W) → Bytes → Bytes → Result (Fs W × Bytes)
  mounted_at (some fs) prefix sub_key = ok (fs, sub_key)
  mounted_at none prefix sub_key =
      err (wrap "%w: no filesystem mounted at %q" (prefix ∷ []) (sentinel not_found))

  abbrev pub find_mount : MountTable W → Bytes → Result (Fs W × Bytes)
  find_mount mt cleaned =
      mounted_at (lookup (before_slash cleaned) mt.mounts) (before_slash cleaned)
        (after_slash cleaned)

  unfoldable pub resolve : MountTable W → Context W → Bytes → Action W (Fs W × Bytes)
  unfolding equal
  resolve mt ctx full_key = do
    check ctx
    cleaned ← lift (clean_key full_key)
    if equal cleaned []
        then fail (wrap "%w: empty key after cleaning" [] (sentinel invalid_key))
        else lift (find_mount mt cleaned)

  unfoldable pub get : MountTable W → Context W → Bytes → Action W (ReadCloser W)
  get mt ctx key = do (fs, sub) ← resolve mt ctx key; fs.get ctx sub

  unfoldable pub put :
      MountTable W → Context W → Bytes → Reader W → List PutOption → Action W (Unit {0})
  put mt ctx key r opts = do (fs, sub) ← resolve mt ctx key; fs.put ctx sub r opts

  unfoldable pub delete : MountTable W → Context W → Bytes → Action W (Unit {0})
  delete mt ctx key = do (fs, sub) ← resolve mt ctx key; fs.delete ctx sub

  abbrev pub mount_point : Bytes × Fs W → FileInfo
  mount_point (name, fs) = record no_info { key = name; is_dir = true }

  -- `iterate` is the order in which `range` takes a map.
  unfoldable pub list :
      (List (Bytes × Fs W) → List (Bytes × Fs W))
      → MountTable W
      → Context W
      → Bytes
      → Action W (List FileInfo)
  unfolding equal
  list iterate mt ctx prefix =
      if equal prefix []
      then pure (map mount_point (iterate mt.mounts))
      else do (fs, sub) ← resolve mt ctx prefix; fs.list ctx sub

  unfoldable pub stat : MountTable W → Context W → Bytes → Action W FileInfo
  stat mt ctx key = do (fs, sub) ← resolve mt ctx key; fs.stat ctx sub

  unfoldable pub exists : MountTable W → Context W → Bytes → Action W Bool
  exists mt ctx key = do (fs, sub) ← resolve mt ctx key; fs.exists ctx sub

  unfoldable pub access : MountTable W → Context W → Bytes → Action W AccessInfo
  access mt ctx key = do (fs, sub) ← resolve mt ctx key; fs.access ctx sub

  -- The end of `Copy`, with both keys resolved.
  copy_resolved : Context W → Bytes → Fs W → Bytes → Fs W → Bytes → Action W (Unit {0})
  copy_resolved ctx src_key src src_sub dst dst_sub = elim (native_copier src dst) [
    | some native ↦ native ctx src_sub dst_sub
    | none ↦ transfer ctx src src_sub dst dst_sub [] (wrap "mount copy: get %q: %w" (src_key ∷ []))
  ]

  -- `Copy` looks the table up twice, each time under the lock: it sees `mt` for the source, and
  -- `mt'`, which other goroutines may have changed, for the destination.
  unfoldable pub copy_between :
      MountTable W → MountTable W → Context W → Bytes → Bytes → Action W (Unit {0})
  unfolding copy_resolved
  copy_between mt mt' ctx src_key dst_key = do
    (src, src_sub) ← resolve mt ctx src_key
    (dst, dst_sub) ← resolve mt' ctx dst_key
    copy_resolved ctx src_key src src_sub dst dst_sub

  -- `Copy` while no other goroutine changes the table.
  unfoldable pub copy : MountTable W → Context W → Bytes → Bytes → Action W (Unit {0})
  copy mt = copy_between mt mt

  -- The table as a store; `identity` is its address.
  unfoldable pub as_fs : ℕ → (List (Bytes × Fs W) → List (Bytes × Fs W)) → MountTable W → Fs W
  as_fs identity iterate mt = record {
    identity = identity;
    get = get mt;
    put = put mt;
    delete = delete mt;
    list = list iterate mt;
    stat = stat mt;
    access = access mt;
    exists = exists mt;
    copier = some (copy mt);
    batch_deleter = none;
  }
