-- ===== src/Migrate/Readers.antt =====
-- The readers that Migrate opens.
use vire_fs.Base.{ℕ, Bool, true, false, List, [], ◌≡◌, ◌≢◌, refl, ◌∙◌}
use vire_fs.Bytes.{Bytes}
use vire_fs.Effect.{Context}
use vire_fs.Fs.{Fs}
use vire_fs.Fs.Readers.{CopiesReaders, copy-Steady}
use vire_fs.Walk.{exhausted}
use vire_fs.Migrate.{
  MigrateConfig, MigrateOption, check_conflict, transfer_file, migrate, apply_options, no_files,
}
use vire_fs.Migrate.Views.{ReadsOnly, TransfersKeep, view-check_conflict, walk-Seen}

module _ {W : Type 0} (readers : W → ℕ) (ctx : Context W) (src dst : Fs W)
    (copies : CopiesReaders readers ctx src dst) where
  readers-transfer_file :
      (cfg : MigrateConfig W) (dry : Bool) (key dst_key : Bytes) (w : W)
      → readers (transfer_file ctx src dst cfg dry key dst_key w).1 ≡ readers w
  unfolding transfer_file
  readers-transfer_file cfg true key dst_key w = refl
  readers-transfer_file cfg false key dst_key w =
      copy-Steady readers ctx src dst key dst_key [] copies w

  copies-TransfersKeep :
      (cfg : MigrateConfig W) (n : ℕ)
      → ReadsOnly readers ctx src dst cfg
      → TransfersKeep readers n ctx src dst cfg
  copies-TransfersKeep cfg n reads key dst_key w h go =
      readers-transfer_file cfg cfg.dry_run key dst_key
        (check_conflict ctx src dst cfg cfg.conflict dst_key w).1
      ∙ view-check_conflict readers ctx src dst cfg reads dst_key w
      ∙ h

  -- However Migrate ends, with an error of a file in the middle or none, it leaves as many readers
  -- open as there were, if each Get of the source that succeeds opens one, which its Close closes,
  -- and the other operations and the progress callback open and close none.
  pub migrate-readers :
      (fuel : ℕ) (src_prefix dst_prefix : Bytes) (opts : List (MigrateOption W)) (w : W)
      → ReadsOnly readers ctx src dst (apply_options opts)
      → (migrate fuel ctx src src_prefix dst dst_prefix opts w).0 ≢ exhausted
      → readers (migrate fuel ctx src src_prefix dst dst_prefix opts w).1.0 ≡ readers w
  unfolding migrate
  migrate-readers fuel src_prefix dst_prefix opts w reads =
      walk-Seen readers ctx src dst (apply_options opts) reads (readers w)
        (copies-TransfersKeep (apply_options opts) (readers w) reads) fuel src_prefix dst_prefix
        (w, no_files) refl
