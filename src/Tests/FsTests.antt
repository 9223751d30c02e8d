-- ===== src/Tests/FsTests.antt =====
-- The operations that go by the interface alone.
use vire_fs.Base.{none, [], ◌∷◌, ◌≡◌, refl, ◌↔◌}
use vire_fs.Bytes.{codes, equal}
use vire_fs.Dict.{lookup, erase}
use vire_fs.Errors.{sentinel, not_found, ok, err}
use vire_fs.Fs.{Fs, ReadCloser, batch_delete}
use vire_fs.Fs.Batch.{Deleted, batch_delete-ok_iff}
use vire_fs.Tests.Memory.{World, live, memory}

abbrev disk : Fs World
disk = memory 1 []

abbrev cloud : Fs World
cloud = memory 2 []

abbrev two : World
two = (codes "a", codes "1") ∷ (codes "b", codes "2") ∷ []

batch_delete-ok_iff_example :
    (batch_delete live disk (codes "a" ∷ []) two ≡ (ok tt, (codes "b", codes "2") ∷ []))
    ↔ Deleted live disk two (codes "a" ∷ []) ((codes "b", codes "2") ∷ [])
batch_delete-ok_iff_example =
    batch_delete-ok_iff live disk (codes "a" ∷ []) two ((codes "b", codes "2") ∷ []) refl

stopped :
    batch_delete live disk (codes "a" ∷ codes "z" ∷ codes "b" ∷ []) two
    ≡ (err (sentinel not_found), (codes "b", codes "2") ∷ [])
unfolding batch_delete lookup erase equal
stopped = refl

missing : disk.get live (codes "z") two ≡ (err (sentinel not_found), two)
unfolding lookup equal
missing = refl

abbrev reader : ReadCloser World
reader = record { read = λ v. ((codes "1", none), v); close = λ v. v }

found : disk.get live (codes "a") two ≡ (ok reader, two)
unfolding lookup equal
found = refl
