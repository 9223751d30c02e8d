-- ===== src/Migrate/Callback.antt =====
-- The callback of Migrate on a file, on a directory and on an error of List.
use vire_fs.Base.{Bool, true, false, Option, none, some, if◌then◌else◌, ◌≡◌, refl, ap}
use vire_fs.Bytes.{Bytes}
use vire_fs.Errors.{Error}
use vire_fs.Effect.{Context}
use vire_fs.Fs.{Fs, FileInfo, no_info}
use vire_fs.Migrate.{MigrateResult, MigrateConfig, migrate_file, callback}

module _ {W : Type 0} (ctx : Context W) (src dst : Fs W) (cfg : MigrateConfig W)
    (src_prefix dst_prefix : Bytes) where
  choose : Bytes → W × MigrateResult → Bool → Option Error × (W × MigrateResult)
  choose key s is_dir =
      if is_dir then (none, s) else migrate_file ctx src dst cfg src_prefix dst_prefix key s

  pub callback-file :
      (fi : FileInfo) (s : W × MigrateResult)
      → fi.is_dir ≡ false
      → callback ctx src dst cfg src_prefix dst_prefix fi.key fi none s
        ≡ migrate_file ctx src dst cfg src_prefix dst_prefix fi.key s
  unfolding callback choose
  callback-file fi s file = ap (choose fi.key s) file

  pub callback-dir :
      (fi : FileInfo) (s : W × MigrateResult)
      → fi.is_dir ≡ true
      → callback ctx src dst cfg src_prefix dst_prefix fi.key fi none s ≡ (none, s)
  unfolding callback choose
  callback-dir fi s dir = ap (choose fi.key s) dir

  pub callback_of_error :
      (key : Bytes) (e : Error) (s : W × MigrateResult)
      → callback ctx src dst cfg src_prefix dst_prefix key no_info (some e) s ≡ (some e, s)
  unfolding callback
  callback_of_error key e s = refl
