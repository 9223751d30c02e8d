-- ===== src/Tests/MountTests.antt =====
-- The mount table: routing, the table's changes, and forwarding.
use mathlib.Core.List.{Mem, Nodup, reverse_perm}
use vire_fs.Base.{none, List, [], ◌∷◌, map, reverse, ◌≡◌, ◌≢◌, refl, inl, ◌↔◌, All, arith}
use vire_fs.Bytes.{Bytes, codes, equal, join}
use vire_fs.Dict.{lookup, insert, erase}
use vire_fs.Errors.{Error, sentinel, not_found, wrap, ok, err}
use vire_fs.GoPath.Laws.{IsName}
use vire_fs.Key.{clean_key}
use vire_fs.Fs
use vire_fs.Fs.{Fs}
use vire_fs.Mount.{
  MountTable, new_mount_table, mount, unmount, mounted_at, resolve, list, copy_between, as_fs,
}
use vire_fs.Mount.Calls.{
  Call, mounts, unmounts, after_calls, last_said, directory, list-after_calls, resolve-after_calls,
}
use vire_fs.Mount.Races.{copy_between-after_calls}
use vire_fs.Mount.Routing.{LeadsTo, Routed, resolve-ok_iff}
use vire_fs.Mount.Table.{resolve-mount_unreachable}
use vire_fs.Mount.Forward.{as_fs-Routed, SameCopy}
use vire_fs.GoPath.{join_path}
use vire_fs.Walk.{sub_prefix}
use vire_fs.Tests.Memory.{World, live, memory}

abbrev disk : Fs World
disk = memory 1 []

abbrev cloud : Fs World
cloud = memory 2 []

abbrev table : MountTable World
table = record { mounts = (codes "local", disk) ∷ (codes "s3", cloud) ∷ [] }

abbrev full_key : Bytes
full_key = codes "/local//docs/a"

local_name : IsName (codes "local")
local_name = record {
  not_empty = λ e. cc;
  not_cur = λ e. cc;
  not_parent = λ e. cc;
  no_slash = omega arith;
}

docs_names : All IsName (codes "docs" ∷ codes "a" ∷ [])
docs_names = (
  record { not_empty = λ e. cc; not_cur = λ e. cc; not_parent = λ e. cc; no_slash = omega arith },
  (
    record { not_empty = λ e. cc; not_cur = λ e. cc; not_parent = λ e. cc; no_slash = omega arith },
    tt,
  ),
)

abbrev below : List Bytes
below = codes "docs" ∷ codes "a" ∷ []

leads : LeadsTo full_key (codes "local") below
unfolding clean_key
leads = record { cleaned = refl; mount_name = local_name; names = docs_names }

routed : Routed table live full_key disk (codes "docs/a")
unfolding lookup equal
routed = record { mount = codes "local"; below = below; leads = leads; mounted = refl; rest = refl }

resolve-ok_iff_example :
    (resolve table live full_key [] ≡ (ok (disk, codes "docs/a"), []))
    ↔ (◌≡◌ {A = World} [] [] × (live [] ≡ none) × Routed table live full_key disk (codes "docs/a"))
resolve-ok_iff_example = resolve-ok_iff table live full_key (codes "docs/a") disk [] []

abbrev lost : Error
lost = wrap "%w: no filesystem mounted at %q" (codes "tmp" ∷ []) (sentinel not_found)

resolve-lost : resolve table live (codes "tmp/x") [] ≡ (err lost, [])
unfolding resolve clean_key lookup
resolve-lost = refl

abbrev remounted : MountTable World
remounted = record { mounts = (codes "local", cloud) ∷ (codes "s3", cloud) ∷ [] }

mounted : mount (codes "local") cloud table ≡ (ok tt, remounted)
unfolding mount insert equal
mounted = refl

abbrev hidden : MountTable World
hidden = record { mounts = (codes "local", disk) ∷ (codes "s3", cloud) ∷ (codes "..x", disk) ∷ [] }

mounted_hidden : mount (codes "..x") disk table ≡ (ok tt, hidden)
unfolding mount insert equal
mounted_hidden = refl

resolve-mount_unreachable_example :
    resolve hidden live (codes "..x/a") [] ≡ resolve table live (codes "..x/a") []
resolve-mount_unreachable_example =
    resolve-mount_unreachable (codes "..x") disk table live [] (codes "..x/a") (inl refl)
      mounted_hidden

as_fs-Routed_example :
    let m = as_fs 9 (λ l. l) table in
    (m.get live full_key [] ≡ disk.get live (codes "docs/a") [])
    × (m.put live full_key (λ w. ((codes "hi", none), w)) [] []
        ≡ disk.put live (codes "docs/a") (λ w. ((codes "hi", none), w)) [] [])
    × (m.delete live full_key [] ≡ disk.delete live (codes "docs/a") [])
    × (m.list live full_key [] ≡ disk.list live (codes "docs/a") [])
    × (m.stat live full_key [] ≡ disk.stat live (codes "docs/a") [])
    × (m.exists live full_key [] ≡ disk.exists live (codes "docs/a") [])
    × (m.access live full_key [] ≡ disk.access live (codes "docs/a") [])
as_fs-Routed_example =
    as_fs-Routed table live [] 9 (λ l. l) full_key (codes "docs/a") disk
      (λ w. ((codes "hi", none), w)) [] refl routed

-- A walk over the table: the keys that a mounted store lists do not begin with the mount's name, so
-- the second level below a mount is looked up under a path that names its parent twice.
walk_below_mount : sub_prefix (codes "local/docs") (codes "docs/sub") ≡ codes "local/docs/docs/sub"
unfolding sub_prefix join_path
walk_below_mount = refl

abbrev busy : List (Call World)
busy =
    mounts (codes "local") disk
    ∷ mounts (codes "a/b") cloud
    ∷ mounts (codes "s3") cloud
    ∷ unmounts (codes "local")
    ∷ []

abbrev backwards : List (Bytes × Fs World) → List (Bytes × Fs World)
backwards m = reverse m

resolve-after_calls_example :
    resolve (after_calls busy new_mount_table) live full_key []
    ≡ (mounted_at (last_said (codes "local") busy none) (codes "local") (join below), [])
resolve-after_calls_example = resolve-after_calls busy live [] leads refl

list-after_calls_example :
    (names : List Bytes) × (list backwards (after_calls busy new_mount_table) live [] []
      ≡ (ok (map directory names), []))
    × Nodup names
    × ((name : Bytes) → Mem name names ↔ (last_said name busy none ≢ none))
list-after_calls_example = list-after_calls backwards busy live [] (λ m. reverse_perm m)

listed_names :
    list backwards (after_calls busy new_mount_table) live [] []
    ≡ (ok (directory (codes "s3") ∷ []), [])
unfolding list after_calls new_mount_table mount unmount insert erase equal
listed_names = refl

s3_ne_local : codes "s3" ≢ codes "local"
s3_ne_local e = ground arith

copy_between-after_calls_example :
    SameCopy live disk full_key
      (codes "docs/a")
      []
      (copy_between table
        (after_calls (unmounts (codes "s3") ∷ []) table)
        live
        full_key
        full_key
        [])
      (Fs.copy live disk (codes "docs/a") disk (codes "docs/a") [] [])
unfolding routed
copy_between-after_calls_example =
    copy_between-after_calls table (unmounts (codes "s3") ∷ []) live full_key full_key
      (codes "docs/a") (codes "docs/a") disk disk [] refl routed routed (s3_ne_local, tt)
