-- ===== src/Migrate/Conflict.antt =====
-- What the conflict policy promises to the keys that the destination has already.
use vire_fs.Base.{
  ℕ, Bool, true, false, Option, none, some, List, [], inl, inr, Bool-cases, ◌⊎◌, ◌≡◌, ◌≢◌, refl,
  sym, ap, ◌∙◌,
}
use vire_fs.Bytes.{Bytes, equal, equal_iff}
use vire_fs.Errors.{Result, ok, err, ok-injective}
use vire_fs.Key.{clean_key}
use vire_fs.Effect.{Context}
use vire_fs.Fs.{Fs, copy}
use vire_fs.Walk.{exhausted}
use vire_fs.Migrate.{
  MigrateConfig, MigrateOption, ConflictPolicy, conflict_error, conflict_skip, conflict_overwrite,
  proceed, on_conflict, check_conflict, transfer_file, migrate, apply_options, no_files,
}
use vire_fs.Migrate.Views.{ReadsOnly, TransfersKeep, view-check_conflict, walk-Seen}

-- The value of one key of the destination, in normal form: Exists tells the truth about it under
-- each name of the key, and a copy to a name of no key or of another key leaves it alone.
pub record Guards {W : Type 0} (content : W → Option Bytes) (k : Bytes) (ctx : Context W)
    (src dst : Fs W) : Type 0 where
  pub truthful :
      (name : Bytes) (w : W)
      → clean_key name ≡ ok k
      → (dst.exists ctx name w).0 ≡ ok false
      → content w ≡ none
  pub on_copy :
      (key dst_key : Bytes) (w : W)
      → clean_key dst_key ≢ ok k
      → content (copy ctx src key dst dst_key [] w).1 ≡ content w

-- A name is one of the key, or it is not.
names : (name k : Bytes) → (clean_key name ≡ ok k) ⊎ (clean_key name ≢ ok k)
names name k = by_cleaned (clean_key name)
  where
    by_cleaned : (r : Result Bytes) → (r ≡ ok k) ⊎ (r ≢ ok k)
    by_cleaned (err e) = inr (λ same. cc)
    by_cleaned (ok c) = elim (Bool-cases (equal c k)) [
      | inl same ↦ inl (ap ok ((equal_iff c k).0 same))
      | inr differ ↦ inr (λ same. cc (sym differ, (equal_iff c k).1 (ok-injective same)))
    ]

module _ {W : Type 0} (ctx : Context W) (src dst : Fs W) (cfg : MigrateConfig W) where
  -- Without the policy to overwrite, a file goes on only if Exists has said no.
  proceed-exists :
      (p : ConflictPolicy) (dst_key : Bytes) (w : W)
      → p ≢ conflict_overwrite
      → (check_conflict ctx src dst cfg p dst_key w).0 ≡ proceed
      → (dst.exists ctx dst_key w).0 ≡ ok false
  unfolding check_conflict
  proceed-exists conflict_overwrite dst_key w ne go = absurd (ne refl)
  proceed-exists conflict_error dst_key w ne go = by_answer (dst.exists ctx dst_key w).0 go
    where
      by_answer :
          (a : Result Bool)
          → on_conflict ctx src dst cfg conflict_error dst_key a ≡ proceed
          → a ≡ ok false
      by_answer (ok true) h = cc
      by_answer (ok false) h = refl
      by_answer (err e) h = cc
  proceed-exists conflict_skip dst_key w ne go = by_answer (dst.exists ctx dst_key w).0 go
    where
      by_answer :
          (a : Result Bool)
          → on_conflict ctx src dst cfg conflict_skip dst_key a ≡ proceed
          → a ≡ ok false
      by_answer (ok true) h = cc
      by_answer (ok false) h = refl
      by_answer (err e) h = cc

  module _ (content : W → Option Bytes) (k v : Bytes) (guards : Guards content k ctx src dst)
      (reads : ReadsOnly content ctx src dst cfg) (ne : cfg.conflict ≢ conflict_overwrite) where
    transfer_file-content :
        (dry : Bool) (key dst_key : Bytes) (w : W)
        → clean_key dst_key ≢ ok k
        → content (transfer_file ctx src dst cfg dry key dst_key w).1 ≡ content w
    unfolding transfer_file
    transfer_file-content true key dst_key w other = refl
    transfer_file-content false key dst_key w other = guards.on_copy key dst_key w other

    guarded-TransfersKeep : TransfersKeep content (some v) ctx src dst cfg
    guarded-TransfersKeep key dst_key w h go = elim (names dst_key k) [
      | inl same ↦
          let no_such = proceed-exists cfg.conflict dst_key w ne go in
          cc (sym h, guards.truthful dst_key w same no_such)
      | inr differ ↦
          transfer_file-content cfg.dry_run key dst_key _ differ
          ∙ view-check_conflict content ctx src dst cfg reads dst_key w
          ∙ h
    ]

-- Under the policies to stop and to skip, Migrate leaves every key as it was that the destination
-- had before, however it ends, if Exists tells the truth about the key under each name that
-- CleanKey brings to it, a copy to any other name leaves it alone, and List, Exists and the
-- progress callback do too.
pub migrate_protects :
    {W : Type 0} (content : W → Option Bytes) (k v : Bytes) (fuel : ℕ) (ctx : Context W)
    (src dst : Fs W) (src_prefix dst_prefix : Bytes) (opts : List (MigrateOption W)) (w : W)
    → Guards content k ctx src dst
    → ReadsOnly content ctx src dst (apply_options opts)
    → (apply_options opts).conflict ≢ conflict_overwrite
    → content w ≡ some v
    → (migrate fuel ctx src src_prefix dst dst_prefix opts w).0 ≢ exhausted
    → content (migrate fuel ctx src src_prefix dst dst_prefix opts w).1.0 ≡ some v
unfolding migrate
migrate_protects content k v fuel ctx src dst src_prefix dst_prefix opts w guards reads ne had =
    walk-Seen content ctx src dst (apply_options opts) reads (some v)
      (guarded-TransfersKeep ctx src dst (apply_options opts) content k v guards reads ne) fuel
      src_prefix dst_prefix (w, no_files) had
