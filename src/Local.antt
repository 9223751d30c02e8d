-- ===== src/Local.antt =====
-- localfs.go: `LocalFS`, a store in a directory. This file has the operating system's calls, the
-- store with its options, and what all operations share: the path of a key, and the error. Paths
-- are those of Unix, where FromSlash changes nothing.
pub mod Operations
pub mod Paths
pub mod FileSystem
pub mod Contents
pub mod Atomic
pub mod Copying
pub mod Keyed
pub mod Store
use mathlib.Core.List.{foldl}
use vire_fs.Base.{ℕ, Bool, true, false, Option, none, some, List, [], ◌∷◌, if◌then◌else◌}
use vire_fs.Base.Int.{ℤ}
use vire_fs.Bytes.{Bytes, has_prefix}
use vire_fs.Errors.{
  Error, sentinel, foreign, wrap, op_error, message, not_found, permission, invalid_key, Result, ok,
  err,
}
use vire_fs.Effect.{Action, pure, fail, ◌>>=◌, ◌>>◌, map_error, lift}
use vire_fs.Fs.{Time, KeyFunc, AccessFunc, ReadCloser}
use vire_fs.GoPath.{is_rooted, clean, join_path}
use vire_fs.Key.{clean_key}

-- An open file that is written to.
pub record File (W : Type 0) : Type 0 where
  pub write : Bytes → Action W (Unit {0})
  pub close : Action W (Unit {0})

pub record TempFile (W : Type 0) : Type 0 where
  pub name : Bytes
  pub file : File W

-- `os.FileInfo`
pub record OsInfo : Type 0 where
  pub size : ℤ
  pub mod_time : Time
  pub is_dir : Bool

pub record DirEntry (W : Type 0) : Type 0 where
  pub name : Bytes
  pub is_dir : Bool
  pub info : Action W OsInfo

-- The calls of package os, and its two tests on an error of its own.
pub record Os (W : Type 0) : Type 0 where
  pub getwd : Action W Bytes
  pub open_file : Bytes → Action W (ReadCloser W)
  pub create : Bytes → Action W (File W)
  pub create_temp : Bytes → Bytes → Action W (TempFile W)
  pub mkdir_all : Bytes → ℕ → Action W (Unit {0})
  pub remove : Bytes → Action W (Unit {0})
  pub rename : Bytes → Bytes → Action W (Unit {0})
  pub read_dir : Bytes → Action W (List (DirEntry W))
  pub stat : Bytes → Action W OsInfo
  pub is_not_exist : ℕ → Bool
  pub is_permission : ℕ → Bool

pub record LocalFs : Type 0 where
  pub root : Bytes
  pub dir_perm : ℕ
  pub create_root : Bool
  pub key_func : Option KeyFunc
  pub atomic_write : Bool
  pub access_func : Option AccessFunc

abbrev pub LocalOption : Type 0
LocalOption = LocalFs → LocalFs

abbrev pub with_dir_perm : ℕ → LocalOption
with_dir_perm perm l = record l { dir_perm = perm }

abbrev pub with_create_root : LocalOption
with_create_root l = record l { create_root = true }

abbrev pub with_local_key_func : KeyFunc → LocalOption
with_local_key_func fn l = record l { key_func = some fn }

abbrev pub with_atomic_write : LocalOption
with_atomic_write l = record l { atomic_write = true }

abbrev pub with_local_access_func : AccessFunc → LocalOption
with_local_access_func fn l = record l { access_func = some fn }

abbrev pub apply_key_func : Option KeyFunc → KeyFunc
apply_key_func none cleaned = cleaned
apply_key_func (some fn) cleaned = fn cleaned

-- `0o755`
abbrev pub default_dir_perm : ℕ
default_dir_perm = 493

module _ {W : Type 0} (os : Os W) where
  -- `filepath.Abs(p)`
  unfoldable pub abs : Bytes → Action W Bytes
  abs p = if is_rooted p then pure (clean p) else do wd ← os.getwd; pure (join_path wd p)

  abbrev make_root : Bool → LocalFs → Action W LocalFs
  make_root false l w = (ok l, w)
  make_root true l w = (ok l, (os.mkdir_all l.root l.dir_perm w).1)

  abbrev apply_options : LocalFs → List LocalOption → LocalFs
  apply_options l opts = foldl (λ l' o. o l') l opts

  unfoldable pub new_local_fs : Bytes → List LocalOption → Action W LocalFs
  unfolding abs
  new_local_fs root opts = do
    root' ← map_error (wrap "virefs: resolve root %q: %w" (root ∷ [])) (abs root)
    let l =
          apply_options
            (record {
              root = root';
              dir_perm = default_dir_perm;
              create_root = false;
              key_func = none;
              atomic_write = false;
              access_func = none;
            })
            opts in
        make_root l.create_root l

  -- The error of Abs, which the source wraps with a second `%w`, is left out: it is one of the
  -- operating system, which is no sentinel, so that `errors_is` answers the same without it.
  abbrev invalid_path : Error → Error
  invalid_path e = wrap "%w: %w" [] (sentinel invalid_key)

  -- The test at the end of `fullPath`.
  abbrev pub inside : Bytes → Bytes → Action W Bytes
  inside root p =
      if has_prefix p root
      then pure p
      else fail (wrap "%w: resolved path escapes root" [] (sentinel invalid_key))

  -- The path of a clean key, by the root and the key function.
  unfoldable pub locate : Bytes → Option KeyFunc → Bytes → Action W Bytes
  unfolding abs
  locate root key_func cleaned = do
    p ← map_error invalid_path (abs (join_path root (apply_key_func key_func cleaned)))
    inside root p

  unfoldable pub full_path : LocalFs → Bytes → Action W Bytes
  unfolding locate
  full_path l key = do cleaned ← lift (clean_key key); locate l.root l.key_func cleaned

  -- `os.IsNotExist` and its like look at the error itself, not along its chain.
  abbrev pub os_test : (ℕ → Bool) → Error → Bool
  os_test p (foreign n) = p n
  os_test p (sentinel _) = false
  os_test p (message _ _) = false
  os_test p (wrap _ _ _) = false
  os_test p (op_error _ _ _) = false

  unfoldable pub map_os_error : Error → Error
  map_os_error e =
      if os_test os.is_not_exist e
      then sentinel not_found
      else if os_test os.is_permission e
      then sentinel permission
      else e
