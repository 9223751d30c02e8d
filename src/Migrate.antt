-- ===== src/Migrate.antt =====
-- migrate.go: `Migrate`. Its callback for Walk captures the counters, which are the walk's state.
pub mod Callback
pub mod Views
pub mod Counters
pub mod DryRun
pub mod Readers
pub mod Carried
pub mod Delivery
pub mod Settled
pub mod Policy
pub mod Conflict
pub mod Contents
pub mod Handled
pub mod Policies
pub mod Keys
use mathlib.Core.List.{foldl}
use vire_fs.Base.{ℕ, Bool, true, false, Option, none, some, List, [], ◌∷◌, if◌then◌else◌}
use vire_fs.Base.Int.{int_succ}
use vire_fs.Bytes.{Bytes, slash, equal, trim_prefix}
use vire_fs.GoPath.{join_path}
use vire_fs.Errors.{Error, sentinel, already_exist, wrap, Result, ok, err}
use vire_fs.Effect.{Context}
use vire_fs.Fs.{Fs, FileInfo, copy}
use vire_fs.Walk.{WalkFunc, WalkEnd, returned, exhausted, walk}

pub data ConflictPolicy : Type 0 where
  conflict_error conflict_skip conflict_overwrite : ConflictPolicy

-- The counters are Go `int`s, kept as their 64-bit patterns.
pub record MigrateResult : Type 0 where
  pub copied : ℕ
  pub skipped : ℕ
  pub total : ℕ

pub record MigrateProgress : Type 0 where
  pub key : Bytes
  pub copied : ℕ
  pub skipped : ℕ
  pub total : ℕ

pub record MigrateConfig (W : Type 0) : Type 0 where
  pub conflict : ConflictPolicy
  pub dry_run : Bool
  pub progress : Option (MigrateProgress → W → W)
  pub key_func : Option (Bytes → Bytes)

abbrev pub MigrateOption : Type 0 → Type 0
MigrateOption W = MigrateConfig W → MigrateConfig W

unfoldable pub with_conflict_policy : {W : Type 0} → ConflictPolicy → MigrateOption W
with_conflict_policy p c = record c { conflict = p }

unfoldable pub with_dry_run : {W : Type 0} → MigrateOption W
with_dry_run c = record c { dry_run = true }

unfoldable pub with_progress_func : {W : Type 0} → (MigrateProgress → W → W) → MigrateOption W
with_progress_func fn c = record c { progress = some fn }

unfoldable pub with_migrate_key_func : {W : Type 0} → (Bytes → Bytes) → MigrateOption W
with_migrate_key_func fn c = record c { key_func = some fn }

abbrev pub default_config : {W : Type 0} → MigrateConfig W
default_config = record {
  conflict = conflict_error;
  dry_run = false;
  progress = none;
  key_func = none;
}

-- The options are applied in order.
abbrev pub apply_options : {W : Type 0} → List (MigrateOption W) → MigrateConfig W
apply_options opts = foldl (λ c o. o c) default_config opts

abbrev pub no_files : MigrateResult
no_files = record { copied = 0; skipped = 0; total = 0 }

unfoldable pub strip_prefix : Bytes → Bytes → Bytes
unfolding equal trim_prefix
strip_prefix key prefix =
    if equal prefix [] then key else trim_prefix (trim_prefix key prefix) (slash ∷ [])

abbrev pub apply_key_func : Option (Bytes → Bytes) → Bytes → Bytes
apply_key_func none key = key
apply_key_func (some f) key = f key

-- The key at the destination for a key of the source.
unfoldable pub destination_key : Option (Bytes → Bytes) → Bytes → Bytes → Bytes → Bytes
unfolding equal
destination_key key_func src_prefix dst_prefix key =
    let rel_key = apply_key_func key_func (strip_prefix key src_prefix) in
    if equal dst_prefix [] then rel_key else join_path dst_prefix rel_key

-- What the check for a conflict says.
pub data Verdict : Type 0 where
  proceed skip : Verdict
  refuse : Error → Verdict

abbrev pub exists_error : Bytes → Error
exists_error dst_key =
    wrap "migrate: %w: destination key %q already exists" (dst_key ∷ []) (sentinel already_exist)

module _ {W : Type 0} where
  abbrev pub report_progress : MigrateConfig W → Bytes → MigrateResult → W → W
  report_progress cfg key r w = elim cfg.progress [
    | none ↦ w
    | some f ↦ f (record { key = key; copied = r.copied; skipped = r.skipped; total = r.total }) w
  ]

  module _ (ctx : Context W) (src dst : Fs W) (cfg : MigrateConfig W) where
    abbrev pub on_conflict : ConflictPolicy → Bytes → Result Bool → Verdict
    on_conflict policy dst_key (err e) =
        refuse (wrap "migrate: check exists %q: %w" (dst_key ∷ []) e)
    on_conflict policy dst_key (ok false) = proceed
    on_conflict conflict_skip dst_key (ok true) = skip
    on_conflict conflict_overwrite dst_key (ok true) = proceed
    on_conflict conflict_error dst_key (ok true) = refuse (exists_error dst_key)

    -- `dst.Exists`, unless existing keys are overwritten.
    unfoldable pub check_conflict : ConflictPolicy → Bytes → W → Verdict × W
    check_conflict conflict_overwrite dst_key w = (proceed, w)
    check_conflict policy dst_key w =
        (on_conflict policy dst_key (dst.exists ctx dst_key w).0, (dst.exists ctx dst_key w).1)

    -- The copy of one file, left out in a dry run.
    unfoldable pub transfer_file : Bool → Bytes → Bytes → W → Result (Unit {0}) × W
    transfer_file true key dst_key w = (ok tt, w)
    transfer_file false key dst_key w = copy ctx src key dst dst_key [] w

    abbrev pub after_transfer :
        Bytes → Bytes → MigrateResult → Result (Unit {0}) × W → Option Error × (W × MigrateResult)
    after_transfer key dst_key r (err e, w) =
        (some (wrap "migrate: copy %q -> %q: %w" (key ∷ dst_key ∷ []) e), (w, r))
    after_transfer key dst_key r (ok _, w) =
        let r' = record r { copied = int_succ r.copied } in
        (none, (report_progress cfg key r' w, r'))

    abbrev pub after_check :
        Bytes → Bytes → MigrateResult → Verdict × W → Option Error × (W × MigrateResult)
    after_check key dst_key r (refuse e, w) = (some e, (w, r))
    after_check key dst_key r (skip, w) =
        let r' = record r { skipped = int_succ r.skipped } in
        (none, (report_progress cfg key r' w, r'))
    after_check key dst_key r (proceed, w) =
        after_transfer key dst_key r (transfer_file cfg.dry_run key dst_key w)

    -- One file: the total is counted before the check.
    unfoldable pub migrate_file :
        Bytes → Bytes → Bytes → W × MigrateResult → Option Error × (W × MigrateResult)
    unfolding check_conflict transfer_file
    migrate_file src_prefix dst_prefix key (w, r) =
        let dst_key = destination_key cfg.key_func src_prefix dst_prefix key in
        after_check key dst_key (record r { total = int_succ r.total })
          (check_conflict cfg.conflict dst_key w)

    -- The callback that Migrate hands to Walk.
    unfoldable pub callback : Bytes → Bytes → WalkFunc W MigrateResult
    unfolding migrate_file
    callback src_prefix dst_prefix key info (some walk_err) s = (some walk_err, s)
    callback src_prefix dst_prefix key info none s =
        if info.is_dir then (none, s) else migrate_file src_prefix dst_prefix key s

  -- The result that is returned along with the error, if any, and the world.
  unfoldable pub migrate :
      ℕ
      → Context W
      → Fs W
      → Bytes
      → Fs W
      → Bytes
      → List (MigrateOption W)
      → W
      → WalkEnd × (W × MigrateResult)
  unfolding callback
  migrate fuel ctx src src_prefix dst dst_prefix opts w =
      walk ctx (callback ctx src dst (apply_options opts) src_prefix dst_prefix) src fuel src_prefix
        (w, no_files)
