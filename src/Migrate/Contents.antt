-- ===== src/Migrate/Contents.antt =====
-- What Migrate does to the contents of the destination.
use vire_fs.Base.{Bool, true, false, none, some, List, ◌≡◌, refl, inl, inr, Option-cases, ◌⊎◌}
use vire_fs.Bytes.{Bytes}
use vire_fs.Errors.{ok}
use vire_fs.Effect.{Context}
use vire_fs.Fs.{Fs, FileInfo}
use vire_fs.Fs.Contents.{Contents, Unchanged}
use vire_fs.Fs.Copying.{Beside}
use vire_fs.Migrate.{
  MigrateResult, MigrateProgress, MigrateConfig, report_progress, destination_key,
}

-- Two stores that share nothing, the second of which tells the truth about the keys that it does
-- not have. List, Exists and the progress callback change no contents.
pub record Copies {W : Type 0} (IsValid : Bytes → Type 0) (from to : Contents W) (ctx : Context W)
    (src dst : Fs W) (cfg : MigrateConfig W) : Type 0 where
  pub beside : Beside IsValid from to ctx src dst
  pub on_list :
      (prefix : Bytes) (files : List FileInfo) (w v : W)
      → src.list ctx prefix w ≡ (ok files, v)
      → Unchanged from w v × Unchanged to w v
  pub exists_calm :
      (key : Bytes) (b : Bool) (w v : W)
      → dst.exists ctx key w ≡ (ok b, v)
      → Unchanged from w v × Unchanged to w v
  pub truthful :
      (key : Bytes) (w v : W) → IsValid key → dst.exists ctx key w ≡ (ok false, v) → to w key ≡ none
  pub progress_calm :
      (f : MigrateProgress → W → W) (p : MigrateProgress) (w : W)
      → cfg.progress ≡ some f
      → Unchanged from w (f p w) × Unchanged to w (f p w)

-- A directory, or a file whose keys at both sides are valid.
abbrev pub IsMovable :
    {W : Type 0} → (Bytes → Type 0) → MigrateConfig W → Bytes → Bytes → FileInfo → Type 0
IsMovable IsValid cfg src_prefix dst_prefix fi =
    (fi.is_dir ≡ true)
    ⊎ (IsValid fi.key × IsValid (destination_key cfg.key_func src_prefix dst_prefix fi.key))

-- Everything that was there is there still.
abbrev pub Grows : {W : Type 0} → Contents W → W → W → Type 0
Grows to w v = (q c : Bytes) → to w q ≡ some c → to v q ≡ some c

module _ {W : Type 0} (IsValid : Bytes → Type 0) (from to : Contents W) (ctx : Context W)
    (src dst : Fs W) (cfg : MigrateConfig W) (copies : Copies IsValid from to ctx src dst cfg) where
  pub report_calm :
      (key : Bytes) (r : MigrateResult) (w : W)
      → Unchanged from w (report_progress cfg key r w)
        × Unchanged to w (report_progress cfg key r w)
  report_calm key r w = elim (Option-cases cfg.progress) [
    | inl unset ↦ rw unset (λ q. refl, λ q. refl)
    | inr (f, set) ↦ rw set (copies.progress_calm f _ w set)
  ]
