-- ===== src/Migrate/DryRun.antt =====
-- A dry run looks and does not touch.
use vire_fs.Base.{ℕ, true, List, ◌≡◌, ◌≢◌, refl, ap, ◌∙◌}
use vire_fs.Bytes.{Bytes}
use vire_fs.Effect.{Context}
use vire_fs.Fs.{Fs}
use vire_fs.Walk.{exhausted}
use vire_fs.Migrate.{
  MigrateConfig, MigrateOption, check_conflict, transfer_file, migrate, apply_options, no_files,
}
use vire_fs.Migrate.Views.{ReadsOnly, TransfersKeep, view-check_conflict, walk-Seen}

dry-TransfersKeep :
    {W V : Type 0} (view : W → V) (v : V) (ctx : Context W) (src dst : Fs W) (cfg : MigrateConfig W)
    → ReadsOnly view ctx src dst cfg
    → cfg.dry_run ≡ true
    → TransfersKeep view v ctx src dst cfg
unfolding transfer_file
dry-TransfersKeep view v ctx src dst cfg reads dry key dst_key w h go =
    ap
      (λ b.
        view
          (transfer_file ctx src dst cfg b key dst_key
            (check_conflict ctx src dst cfg cfg.conflict dst_key w).1).1)
      dry
    ∙ view-check_conflict view ctx src dst cfg reads dst_key w
    ∙ h

-- What List, Exists and the progress callback leave alone, a dry run of Migrate leaves alone,
-- however it ends.
pub migrate_dry_run :
    {W V : Type 0} (view : W → V) (fuel : ℕ) (ctx : Context W) (src dst : Fs W)
    (src_prefix dst_prefix : Bytes) (opts : List (MigrateOption W)) (w : W)
    → ReadsOnly view ctx src dst (apply_options opts)
    → (apply_options opts).dry_run ≡ true
    → (migrate fuel ctx src src_prefix dst dst_prefix opts w).0 ≢ exhausted
    → view (migrate fuel ctx src src_prefix dst dst_prefix opts w).1.0 ≡ view w
unfolding migrate
migrate_dry_run view fuel ctx src dst src_prefix dst_prefix opts w reads dry =
    walk-Seen view ctx src dst (apply_options opts) reads (view w)
      (dry-TransfersKeep view (view w) ctx src dst (apply_options opts) reads dry) fuel src_prefix
      dst_prefix (w, no_files) refl
