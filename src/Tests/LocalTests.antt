-- ===== src/Tests/LocalTests.antt =====
-- Stores on the disk.
use vire_fs.Base.{Bool, true, false, none, some, [], ◌∷◌, ◌++◌, ◌≡◌, ◌≢◌, refl, arith}
use vire_fs.Bytes.{Bytes, codes, equal, equal_iff}
use vire_fs.GoPath.{clean, join_path, dir}
use vire_fs.GoPath.Laws.{IsName}
use vire_fs.Dict.{lookup, insert, erase}
use vire_fs.Errors.{foreign, op_error, ok, err}
use vire_fs.Fs.{Reader, ReadCloser}
use vire_fs.Key.{clean_key}
use vire_fs.Local.{LocalFs, new_local_fs, with_atomic_write, with_local_key_func, full_path}
use vire_fs.Local.Operations.{put, put_plain, put_atomic, get, copy, as_fs}
use vire_fs.Local.Paths.{full_path-path_of}
use vire_fs.Fs.Contents.{Keeps}
use vire_fs.Fs.Store.{IsStore}
use vire_fs.Key.Laws.{IsKey}
use vire_fs.Fs.Keyed.{keyed}
use vire_fs.Local.Keyed.{IsRooted, path}
use vire_fs.Local.Store.{as_fs-IsStore}
use vire_fs.Local.Contents.{put_of_atomic_fails}
use vire_fs.Local.Copying.{copy_self-content}
use vire_fs.Tests.Memory.{World, live}
use vire_fs.Tests.Disk.{content, os, reader_at, disk-FileSystem}

abbrev store_with : Bool → LocalFs
store_with atomic = record {
  root = codes "/srv";
  dir_perm = 493;
  create_root = false;
  key_func = none;
  atomic_write = atomic;
  access_func = none;
}

abbrev local : LocalFs
local = store_with false

abbrev careful : LocalFs
careful = store_with true

made : new_local_fs os (codes "/srv/") (with_atomic_write ∷ []) [] ≡ (ok careful, [])
unfolding new_local_fs clean equal
made = refl

srv-IsName : IsName (codes "srv")
srv-IsName = record {
  not_empty = λ e. cc;
  not_cur = λ e. cc;
  not_parent = λ e. cc;
  no_slash = omega arith;
}

x-IsName : IsName (codes "x")
x-IsName = record {
  not_empty = λ e. cc;
  not_cur = λ e. cc;
  not_parent = λ e. cc;
  no_slash = omega arith;
}

clean_x : clean_key (codes "x") ≡ ok (codes "x")
unfolding clean_key clean equal
clean_x = refl

clean_rooted_x : clean_key (codes "/x/") ≡ ok (codes "x")
unfolding clean_key clean equal
clean_rooted_x = refl

-- At any contents of the disk, and with or without temporary files.
at_x :
    (atomic : Bool) (w : World)
    → full_path os (store_with atomic) (codes "x") w ≡ (ok (codes "/srv/x"), w)
at_x atomic w =
    full_path-path_of os (store_with atomic) (codes "srv" ∷ []) (codes "x" ∷ []) (codes "x") w
      (srv-IsName, tt) (x-IsName, tt) refl refl clean_x

abbrev giving : Bytes → Reader World
giving b w = ((b, none), w)

-- A reader that breaks off.
abbrev broken : Reader World
broken w = ((codes "n", some (foreign 7)), w)

abbrev before : World
before = (codes "/srv/x", codes "old") ∷ (codes "/srv/y", codes "2") ∷ []

abbrev after : World
after = (codes "/srv/x", codes "new") ∷ (codes "/srv/y", codes "2") ∷ []

was_put : put os local live (codes "x") (giving (codes "new")) [] before ≡ (ok tt, after)
unfolding put put_plain full_path clean_key clean equal join_path dir insert lookup
was_put = refl

not_put :
    put os careful live (codes "x") broken [] before
    ≡ (err (op_error "Put" (codes "x") (foreign 7)), before)
unfolding put put_atomic full_path clean_key clean equal join_path dir insert lookup erase
not_put = refl

put_of_atomic_fails_example : content before (codes "/srv/x") ≡ some (codes "old")
put_of_atomic_fails_example =
    put_of_atomic_fails content os disk-FileSystem careful live (codes "x") broken (λ w q. refl) []
      before (at_x true before) before refl not_put (codes "/srv/x") (codes "old")
      (unfold lookup equal in refl)

-- Without a temporary file the old contents are lost.
damaged : put os local live (codes "x") broken [] before ≡ (
  err (op_error "Put" (codes "x") (foreign 7)),
  (codes "/srv/x", codes "n") ∷ (codes "/srv/y", codes "2") ∷ [],
)
unfolding put put_plain full_path clean_key clean equal join_path dir insert lookup
damaged = refl

abbrev of_x : ReadCloser World
of_x = reader_at (codes "/srv/x")

got : get os local live (codes "x") after ≡ (ok of_x, after)
unfolding get full_path clean_key clean equal join_path lookup
got = refl

clean_y : clean_key (codes "y") ≡ ok (codes "y")
unfolding clean_key clean equal
clean_y = refl

y-IsName : IsName (codes "y")
y-IsName = record {
  not_empty = λ e. cc;
  not_cur = λ e. cc;
  not_parent = λ e. cc;
  no_slash = omega arith;
}

at_y : (w : World) → full_path os local (codes "y") w ≡ (ok (codes "/srv/y"), w)
at_y w =
    full_path-path_of os local (codes "srv" ∷ []) (codes "y" ∷ []) (codes "y") w (srv-IsName, tt)
      (y-IsName, tt) refl refl clean_y

x-ne-y : codes "/srv/x" ≢ codes "/srv/y"
unfolding equal
x-ne-y e = cc ((equal_iff (codes "/srv/x") (codes "/srv/y")).1 e)

abbrev alike : World
alike = (codes "/srv/x", codes "old") ∷ (codes "/srv/y", codes "old") ∷ []

copied : copy os local live (codes "x") (codes "y") before ≡ (ok tt, alike)
unfolding copy full_path clean_key clean equal join_path dir insert lookup
copied = refl

abbrev emptied : World
emptied = (codes "/srv/x", []) ∷ (codes "/srv/y", codes "2") ∷ []

copied_onto_itself : copy os local live (codes "x") (codes "x") before ≡ (ok tt, emptied)
unfolding copy full_path clean_key clean equal join_path dir insert lookup
copied_onto_itself = refl

copy_self-content_example : content emptied (codes "/srv/x") ≡ some []
copy_self-content_example =
    copy_self-content content os disk-FileSystem local live (codes "x") (codes "x") before emptied
      (at_x false before) (at_x false before) copied_onto_itself

-- The test of the path goes by its text: a key function reaches a directory beside the root whose
-- name begins with the root's.
escaped :
    full_path os (with_local_key_func (λ key. codes "../srv2/" ++ key) local) (codes "x") []
    ≡ (ok (codes "/srv2/x"), [])
unfolding full_path clean_key clean equal join_path
escaped = refl

-- The root may be the whole disk.
at_the_top : full_path os (record local { root = codes "/" }) (codes "x") [] ≡ (ok (codes "/x"), [])
unfolding full_path clean_key clean equal join_path
at_the_top = refl

careful-IsRooted : IsRooted careful
careful-IsRooted = record {
  names = codes "srv" ∷ [];
  named = (srv-IsName, tt);
  root = refl;
  plain = refl;
}

as_fs-IsStore_example :
    IsStore IsKey (Keeps content) (keyed content (path careful)) live (as_fs os (λ _. []) 1 careful)
as_fs-IsStore_example =
    as_fs-IsStore content os (λ _. []) 1 careful live disk-FileSystem careful-IsRooted
