-- ===== src/Tests/KeyTests.antt =====
-- Keys: the cases of key_test.go, and the theorems at some of them.
use vire_fs.Base.{[], ◌≡◌, refl}
use vire_fs.Bytes.{codes, trim, split}
use vire_fs.Errors.{ok, err}
use vire_fs.Key.{clean_key, traversal_error}
use vire_fs.Key.Resolve.{resolve}
use vire_fs.Key.Laws.{report, IsKey, clean_key-resolve, clean_key-IsKey}

cases :
    (clean_key (codes "") ≡ ok [])
    × (clean_key (codes "/") ≡ ok [])
    × (clean_key (codes ".") ≡ ok [])
    × (clean_key (codes "/a/b/") ≡ ok (codes "a/b"))
    × (clean_key (codes "a//b/./c") ≡ ok (codes "a/b/c"))
    × (clean_key (codes "a/b/../c") ≡ ok (codes "a/c"))
    × (clean_key (codes "..") ≡ err (traversal_error (codes "..")))
    × (clean_key (codes "a/../../b") ≡ err (traversal_error (codes "a/../../b")))
    × (clean_key (codes "/../a") ≡ err (traversal_error (codes "../a")))
    × (clean_key (codes "...") ≡ err (traversal_error (codes "...")))
    × (clean_key (codes "a/..b") ≡ ok (codes "a/..b"))
unfolding clean_key
cases = (refl, refl, refl, refl, refl, refl, refl, refl, refl, refl, refl)

clean_key-resolve_example :
    clean_key (codes "/a//../b/")
    ≡ report (trim (codes "/a//../b/")) (resolve [] (split (codes "/a//../b/")))
clean_key-resolve_example = clean_key-resolve (codes "/a//../b/")

clean_key-IsKey_example : IsKey (codes "a/c")
clean_key-IsKey_example = clean_key-IsKey (codes "a/b/../c") cases.5
