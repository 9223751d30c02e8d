-- ===== src/Tests/DryRunTests.antt =====
-- A dry run and a migration, where two files go to one key.
use vire_fs.Base.{none, List, [], ◌∷◌, ◌≡◌, refl}
use vire_fs.Bytes.{codes, equal}
use vire_fs.Dict.{lookup, insert}
use vire_fs.Fs.{Fs, copy}
use vire_fs.GoPath.{join_path}
use vire_fs.Walk.{returned, walk, sub_prefix}
use vire_fs.Migrate.{
  MigrateOption, conflict_skip, with_conflict_policy, with_dry_run, with_migrate_key_func, migrate,
  destination_key, strip_prefix,
}
use vire_fs.Tests.Memory.{file_at}
use vire_fs.Tests.Pair.{Both, always, left, right}

abbrev src : Fs Both
src = left ((codes "s", file_at (codes "s/a") ∷ file_at (codes "s/b") ∷ []) ∷ [])

abbrev start : Both
start = ((codes "s/a", codes "1") ∷ (codes "s/b", codes "2") ∷ [], [])

-- Both files are to be called x.
abbrev one_key : List (MigrateOption Both)
one_key = with_conflict_policy conflict_skip ∷ with_migrate_key_func (λ key. codes "x") ∷ []

-- The second file is skipped,
skips_one : migrate 4 always src (codes "s") right (codes "t") one_key start ≡ (
  returned none,
  ((start.0, (codes "t/x", codes "1") ∷ []), record { copied = 1; skipped = 1; total = 2 }),
)
unfolding migrate walk lookup insert equal sub_prefix destination_key strip_prefix join_path copy
    with_conflict_policy with_migrate_key_func
skips_one = refl

-- but a dry run counts it as copied.
counts_both :
    migrate 4 always src (codes "s") right (codes "t") (with_dry_run ∷ one_key) start
    ≡ (returned none, (start, record { copied = 2; skipped = 0; total = 2 }))
unfolding migrate walk lookup insert equal sub_prefix destination_key strip_prefix join_path copy
    with_conflict_policy with_migrate_key_func with_dry_run
counts_both = refl
