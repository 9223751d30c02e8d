-- ===== src/Tests/DeliveryTests.antt =====
-- A migration of a tree from one store to another.
use vire_fs.Base.{
  ℕ, suc, false, Option, none, some, List, [], ◌∷◌, ◌≡◌, ◌≢◌, ◌⊎◌, refl, sym, ap, arith, subst, ◌∙◌,
  inl, inr,
}
use vire_fs.Bytes.{Bytes, codes, equal}
use vire_fs.Dict.{lookup, insert}
use vire_fs.Errors.{Error, ok, ok-injective}
use vire_fs.Fs.{Fs, FileInfo, copy}
use vire_fs.Fs.Contents.{Unchanged}
use vire_fs.Fs.Copying.{Copied, copy-Copied}
use vire_fs.GoPath.{join_path}
use vire_fs.Walk.{WalkFunc, returned, walk, sub_prefix}
use vire_fs.Walk.Preorder.{Forest, nil, file, dir, preorder}
use vire_fs.Walk.Tree.{Tree}
use vire_fs.Walk.Visits.{Carries, Outcome, walk-Outcome}
use vire_fs.Migrate.{
  MigrateConfig, MigrateOption, no_files, conflict_overwrite, with_conflict_policy, migrate,
  apply_options, destination_key, strip_prefix,
}
use vire_fs.Migrate.Contents.{Copies, IsMovable}
use vire_fs.Migrate.Delivery.{Delivered, migrate-Delivered}
use vire_fs.Migrate.Settled.{Distinct, AllSettled}
use vire_fs.Migrate.Policy.{Turn, migrate-AllSettled}
use vire_fs.Tests.Memory.{file_at, dir_at, is_some}
use vire_fs.Tests.Pair.{Both, from_left, at_right, always, left, right, left-right-Beside}

machine : Unit {0}
unfolding migrate walk lookup insert equal sub_prefix destination_key strip_prefix join_path copy
machine = tt

abbrev src : Fs Both
src = left (
    (codes "s", dir_at (codes "s/d") ∷ file_at (codes "s/a") ∷ [])
    ∷ (codes "s/d", file_at (codes "s/d/b") ∷ [])
    ∷ [])

abbrev tree : Forest
tree =
    dir (dir_at (codes "s/d")) (file (file_at (codes "s/d/b")) nil)
      (file (file_at (codes "s/a")) nil)

abbrev start : Both
start = ((codes "s/a", codes "1") ∷ (codes "s/d/b", codes "2") ∷ [], (codes "old", codes "9") ∷ [])

delivered : migrate 4 always src (codes "s") right (codes "t") [] start ≡ (
  returned none,
  (
    (
      start.0,
      (codes "old", codes "9") ∷ (codes "t/d/b", codes "2") ∷ (codes "t/a", codes "1") ∷ [],
    ),
    record { copied = 2; skipped = 0; total = 2 },
  ),
)
unfolding machine
delivered = refl

-- The listing is fixed.
src-Tree :
    (IsEntry : FileInfo → Type 0) (IsSteady : Both → Type 0)
    → ((fi : FileInfo) → IsEntry fi)
    → Tree always src IsEntry IsSteady (codes "s") tree
unfolding machine
src-Tree IsEntry IsSteady any = (
  λ w v files st h. (sym (ok-injective (ap (λ y. y.0) h)), subst IsSteady (ap (λ y. y.1) h) st),
  (
    refl,
    any _,
    (
      λ w v files st h. (sym (ok-injective (ap (λ y. y.0) h)), subst IsSteady (ap (λ y. y.1) h) st),
      (refl, any _, tt),
    ),
    (refl, any _, tt),
  ),
)

same_calm : (w v : Both) → w ≡ v → Unchanged from_left w v × Unchanged at_right w v
same_calm w v h = (λ q. ap (λ y. from_left y q) (sym h), λ q. ap (λ y. at_right y q) (sym h))

src-Copies :
    (cfg : MigrateConfig Both)
    → cfg.progress ≡ none
    → Copies (λ _. Unit) from_left at_right always src right cfg
src-Copies cfg quiet = record {
  beside = left-right-Beside _;
  on_list = λ prefix files w v h. same_calm w v (ap (λ y. y.1) h);
  exists_calm = λ key b w v h. same_calm w v (ap (λ y. y.1) h);
  truthful = λ key w v _ h. missing (lookup key w.1) (ok-injective (ap (λ y. y.0) h));
  progress_calm = λ f p w h. cc (sym h ∙ quiet);
}
  where
    missing : (o : Option Bytes) → is_some o ≡ false → o ≡ none
    missing none h = refl
    missing (some b) h = cc

migrate-Delivered_example :
    let x = migrate 4 always src (codes "s") right (codes "t") [] start in
    ((x.0 ≡ returned none)
      × Delivered from_left at_right
          (apply_options [])
          (codes "s")
          (codes "t")
          (preorder tree)
          start
          x.1.0)
    ⊎ ((e : Error) × (x.0 ≡ returned (some e)))
migrate-Delivered_example =
    migrate-Delivered (λ _. Unit) from_left at_right 4 always src right (codes "s") (codes "t") []
      start tree (src-Copies (apply_options []) refl) refl refl
      (src-Tree (IsMovable {W = Both} (λ _. Unit {0}) (apply_options []) (codes "s") (codes "t"))
        (Unchanged from_left start) (λ fi. inr (tt, tt)))
      (omega arith)

-- The destination holds a file at one of the keys.
abbrev taken : Both
taken = (start.0, (codes "t/a", codes "9") ∷ (codes "old", codes "9") ∷ [])

abbrev overwriting : List (MigrateOption Both)
overwriting = with_conflict_policy conflict_overwrite ∷ []

abbrev overwrites : MigrateConfig Both
overwrites = apply_options overwriting

overwritten : migrate 4 always src (codes "s") right (codes "t") overwriting taken ≡ (
  returned none,
  (
    (
      start.0,
      (codes "t/a", codes "1") ∷ (codes "old", codes "9") ∷ (codes "t/d/b", codes "2") ∷ [],
    ),
    record { copied = 2; skipped = 0; total = 2 },
  ),
)
unfolding machine with_conflict_policy
overwritten = refl

targets_apart :
    destination_key none (codes "s") (codes "t") (codes "s/d/b")
    ≢ destination_key none (codes "s") (codes "t") (codes "s/a")
unfolding machine
targets_apart e = ground arith

tree-Distinct : Distinct overwrites (codes "s") (codes "t") (preorder tree)
unfolding with_conflict_policy
tree-Distinct = ((inl refl, (inl refl, tt)), ((inr (inr targets_apart), tt), (tt, tt)))

migrate-AllSettled_example :
    let x = migrate 4 always src (codes "s") right (codes "t") overwriting taken in
    ((x.0 ≡ returned none)
      × AllSettled from_left at_right
          (Turn always src right overwrites
            (codes "s")
            (codes "t")
            (preorder tree)
            (taken, no_files))
          always
          right
          overwrites
          (codes "s")
          (codes "t")
          (preorder tree)
          taken
          x.1.0)
    ⊎ ((e : Error) × (x.0 ≡ returned (some e)))
unfolding with_conflict_policy
migrate-AllSettled_example =
    migrate-AllSettled (λ _. Unit) from_left at_right 4 always src right (codes "s") (codes "t")
      overwriting taken tree (src-Copies overwrites refl) refl
      (src-Tree (IsMovable {W = Both} (λ _. Unit {0}) overwrites (codes "s") (codes "t"))
        (Unchanged from_left taken) (λ fi. inr (tt, tt)))
      tree-Distinct (omega arith)

copied :
    copy always src (codes "s/a") right (codes "new") [] start
    ≡ (ok tt, (start.0, (codes "old", codes "9") ∷ (codes "new", codes "1") ∷ []))
unfolding machine
copied = refl

copy-Copied_example :
    Copied from_left at_right
      (codes "s/a")
      (codes "new")
      start
      (start.0, (codes "old", codes "9") ∷ (codes "new", codes "1") ∷ [])
copy-Copied_example =
    copy-Copied (λ _. Unit) from_left at_right always src right (left-right-Beside _) (codes "s/a")
      (codes "new") [] start (start.0, (codes "old", codes "9") ∷ (codes "new", codes "1") ∷ []) tt
      tt copied

-- A callback that writes what it sees into the second store.
abbrev log : WalkFunc Both ℕ
log key fi (some e) s = (some e, s)
log key fi none ((a, b), n) = (none, ((a, insert key (codes "seen") b), suc n))

log-Carries : Carries always log src (λ _. Unit) (Unchanged from_left start)
log-Carries = record {
  on_error = λ prefix e s t h. cc;
  on_dir = λ fi e s t is_dir en h. cc;
  steady = λ fi s t en calm h q. ap (λ y. from_left y.1.0 q) (sym h) ∙ calm q;
}

walk-Outcome_example :
    Outcome always log src
      (λ _. Unit)
      (Unchanged from_left start)
      (preorder tree)
      (start, 0)
      (walk always log src 4 (codes "s") (start, 0))
walk-Outcome_example =
    walk-Outcome always log src (λ _. Unit) (Unchanged from_left start) log-Carries 4 (codes "s")
      tree (start, 0) (omega arith) (λ q. refl) (src-Tree _ (Unchanged from_left start) (λ fi. tt))
