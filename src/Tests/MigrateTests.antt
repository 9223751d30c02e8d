-- ===== src/Tests/MigrateTests.antt =====
-- Migrations between two stores of one world: the source's keys begin with `s/`.
use vire_fs.Base.{
  Bool, ap, true, false, Option, none, some, List, [], ◌∷◌, ◌++◌, ◌≡◌, ◌≢◌, refl, sym, arith,
  Option-cases, inl, inr,
}
use vire_fs.Bytes.{Bytes, codes, equal, equal_ne}
use vire_fs.Dict.{lookup, insert, lookup-insert}
use vire_fs.Errors.{Error, Result, ok, err}
use vire_fs.Key.{clean_key}
use vire_fs.Fs.{Fs, copy}
use vire_fs.GoPath.{clean, join_path}
use vire_fs.GoPath.Laws.{IsName}
use vire_fs.Walk.{returned, exhausted, walk, sub_prefix}
use vire_fs.Walk.Invariant.{Keeps}
use vire_fs.Migrate.{
  MigrateConfig, MigrateOption, conflict_skip, conflict_overwrite, with_conflict_policy,
  with_dry_run, apply_options, exists_error, destination_key, strip_prefix, migrate, default_config,
}
use vire_fs.Migrate.Counters.{Balanced, Ended, migrate-Balanced}
use vire_fs.Migrate.Views.{ReadsOnly}
use vire_fs.Migrate.DryRun.{migrate_dry_run}
use vire_fs.Migrate.Conflict.{Guards, migrate_protects}
use vire_fs.Tests.Memory.{World, live, memory, file_at, dir_at, store, is_some}

abbrev src : Fs World
src = memory 1 (
    (codes "s", dir_at (codes "s/d") ∷ file_at (codes "s/a") ∷ [])
    ∷ (codes "s/d", file_at (codes "s/d/b") ∷ [])
    ∷ [])

abbrev dst : Fs World
dst = memory 2 []

abbrev before : World
before = (codes "s/a", codes "1") ∷ (codes "s/d/b", codes "2") ∷ (codes "t/a", codes "9") ∷ []

machine : Unit {0}
unfolding migrate walk lookup insert equal sub_prefix destination_key strip_prefix join_path copy
    with_conflict_policy with_dry_run
machine = tt

skipping :
    migrate 4 live src (codes "s") dst (codes "t") (with_conflict_policy conflict_skip ∷ []) before
    ≡ (
      returned none,
      (before ++ (codes "t/d/b", codes "2") ∷ [], record { copied = 1; skipped = 1; total = 2 }),
    )
unfolding machine
skipping = refl

stopping : migrate 4 live src (codes "s") dst (codes "t") [] before ≡ (
  returned (some (exists_error (codes "t/a"))),
  (before ++ (codes "t/d/b", codes "2") ∷ [], record { copied = 1; skipped = 0; total = 2 }),
)
unfolding machine
stopping = refl

migrate-Balanced_example :
    Keeps Balanced (Ended live src dst (apply_options (with_conflict_policy conflict_skip ∷ []))) (
      migrate 4 live src
        (codes "s")
        dst
        (codes "t")
        (with_conflict_policy conflict_skip ∷ [])
        before)
migrate-Balanced_example =
    migrate-Balanced 4 live src dst (codes "s") (codes "t")
      (with_conflict_policy conflict_skip ∷ []) before

abbrev dry : List (MigrateOption World)
dry = with_dry_run ∷ with_conflict_policy conflict_skip ∷ []

dry_reads : ReadsOnly (λ w. w) live src dst (apply_options dry)
unfolding with_dry_run with_conflict_policy
dry_reads = record {
  on_list = λ prefix w. refl;
  on_exists = λ key w. refl;
  on_progress = λ f p w h. cc;
}

dry_run_result :
    migrate 4 live src (codes "s") dst (codes "t") dry before
    ≡ (returned none, (before, record { copied = 1; skipped = 1; total = 2 }))
unfolding machine
dry_run_result = refl

dry_ends : (migrate 4 live src (codes "s") dst (codes "t") dry before).0 ≢ exhausted
dry_ends = rw dry_run_result (λ e. cc)

is_dry : (apply_options dry).dry_run ≡ true
unfolding with_dry_run with_conflict_policy
is_dry = refl

migrate_dry_run_example : (migrate 4 live src (codes "s") dst (codes "t") dry before).1.0 ≡ before
migrate_dry_run_example =
    migrate_dry_run (λ w. w) 4 live src dst (codes "s") (codes "t") dry before dry_reads is_dry
      dry_ends

abbrev skips : List (MigrateOption World)
skips = with_conflict_policy conflict_skip ∷ []

abbrev content : World → Option Bytes
content w = lookup (codes "t/a") w

-- A store that cleans its keys.
abbrev stored : Result Bytes → (Bytes × Option Error) × World → Result (Unit {0}) × World
stored (ok k) given = store k given
stored (err e) (_, w) = (err e, w)

abbrev has : Result Bytes → World → Result Bool
has (ok k) w = ok (is_some (lookup k w))
has (err e) w = err e

abbrev tidy : Fs World
tidy = record dst {
  put = λ ctx key r opts w. stored (clean_key key) (r w);
  exists = λ ctx key w. (has (clean_key key) w, w);
}

at_other_key :
    (key dst_key : Bytes) (w : World)
    → clean_key dst_key ≢ ok (codes "t/a")
    → content (copy live src key tidy dst_key [] w).1 ≡ content w
unfolding copy
at_other_key key dst_key w h = elim (Option-cases (lookup key w)) [
  | inl missing ↦ rw missing
  | inr (b, found) ↦ rw found (by_cleaned b (clean_key dst_key) h)
]
  where
    by_cleaned :
        (b : Bytes) (r : Result Bytes)
        → r ≢ ok (codes "t/a")
        → content (stored r ((b, none), w)).1 ≡ content w
    by_cleaned b (err e) other = refl
    by_cleaned b (ok k) other =
        rw (lookup-insert, equal_ne (codes "t/a") k (λ e. other (ap ok (sym e)))) refl

known :
    (name : Bytes) (w : World)
    → clean_key name ≡ ok (codes "t/a")
    → (tidy.exists live name w).0 ≡ ok false
    → content w ≡ none
known name w e h = absent (lookup (codes "t/a") w) (rw e at h)
  where
    absent : (o : Option Bytes) → ◌≡◌ {A = Result Bool} (ok (is_some o)) (ok false) → o ≡ none
    absent none h' = refl
    absent (some b) h' = cc

guards : Guards content (codes "t/a") live src tidy
guards = record { truthful = known; on_copy = at_other_key }

reads : ReadsOnly content live src tidy (apply_options skips)
unfolding with_conflict_policy
reads = record {
  on_list = λ prefix w. refl;
  on_exists = λ key w. refl;
  on_progress = λ f p w h. cc;
}

-- The prefix of the destination is not in normal form.
tidy_skipping : migrate 4 live src (codes "s") tidy (codes "/t") skips before ≡ (
  returned none,
  (before ++ (codes "t/d/b", codes "2") ∷ [], record { copied = 1; skipped = 1; total = 2 }),
)
unfolding machine clean_key clean
tidy_skipping = refl

skips_ends : (migrate 4 live src (codes "s") tidy (codes "/t") skips before).0 ≢ exhausted
skips_ends = rw tidy_skipping (λ e. cc)

not_overwriting : (apply_options skips).conflict ≢ conflict_overwrite
unfolding with_conflict_policy
not_overwriting e = cc

held : content before ≡ some (codes "9")
unfolding lookup equal
held = refl

migrate_protects_example :
    content (migrate 4 live src (codes "s") tidy (codes "/t") skips before).1.0 ≡ some (codes "9")
migrate_protects_example =
    migrate_protects content (codes "t/a") (codes "9") 4 live src tidy (codes "s") (codes "/t")
      skips before guards reads not_overwriting held skips_ends

abbrev stop_config : MigrateConfig World
stop_config = default_config

abbrev skip_config : MigrateConfig World
skip_config = record stop_config { conflict = conflict_skip }

taken :
    dst.exists live (destination_key none (codes "s") (codes "t") (codes "s/a")) before
    ≡ (ok true, before)
unfolding machine
taken = refl

a_name : IsName (codes "a")
a_name = record {
  not_empty = λ e. cc;
  not_cur = λ e. cc;
  not_parent = λ e. cc;
  no_slash = omega arith;
}
