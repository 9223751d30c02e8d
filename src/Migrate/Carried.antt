-- ===== src/Migrate/Carried.antt =====
-- The callback of Migrate, as one that Walk can go by: it leaves the source alone.
use vire_fs.Base.{false, ◌≡◌, ap, sym, ◌∙◌, inl, inr}
use vire_fs.Bytes.{Bytes}
use vire_fs.Effect.{Context}
use vire_fs.Fs.{Fs, FileInfo}
use vire_fs.Fs.Contents.{Contents, Unchanged}
use vire_fs.Walk.{WalkFunc}
use vire_fs.Walk.Visits.{Carries}
use vire_fs.Migrate.{MigrateResult, MigrateConfig, callback}
use vire_fs.Migrate.Callback.{callback-dir, callback_of_error}
use vire_fs.Migrate.Contents.{Copies, IsMovable}
use vire_fs.Migrate.Policies.{CallOf, callback-CallOf}

module _ {W : Type 0} (IsValid : Bytes → Type 0) (from to : Contents W) (ctx : Context W)
    (src dst : Fs W) (cfg : MigrateConfig W) (copies : Copies IsValid from to ctx src dst cfg)
    (wet : cfg.dry_run ≡ false) (src_prefix dst_prefix : Bytes) where
  abbrev handler : WalkFunc W MigrateResult
  handler = callback ctx src dst cfg src_prefix dst_prefix

  abbrev IsEntry : FileInfo → Type 0
  IsEntry = IsMovable IsValid cfg src_prefix dst_prefix

  CallOf-steady :
      (fi : FileInfo) (s t : W × MigrateResult) (w : W)
      → Unchanged from w s.0
      → CallOf IsValid from to ctx src dst cfg copies wet (λ _ _. Unit) src_prefix dst_prefix fi s t
      → Unchanged from w t.0
  CallOf-steady fi s t w calm (inl (is_dir, same)) = λ q. ap (λ x. from x.0 q) (sym same) ∙ calm q
  CallOf-steady fi s t w calm (inr (plain, h)) = λ q. h.source q ∙ calm q

  -- As long as no call fails, the source stays as it was.
  pub callback-Carries : (w : W) → Carries ctx handler src IsEntry (Unchanged from w)
  callback-Carries w = record {
    on_error = λ prefix e s t h.
        let same = sym (callback_of_error ctx src dst cfg src_prefix dst_prefix prefix e s) ∙ h in
        cc;
    on_dir = λ fi e s t is_dir en h.
        let same = sym (callback-dir ctx src dst cfg src_prefix dst_prefix fi s is_dir) ∙ h in cc;
    steady = λ fi s t en calm h. CallOf-steady fi s t w calm (
        callback-CallOf IsValid from to ctx src dst cfg copies wet (λ _ _. Unit) src_prefix
          dst_prefix fi s t tt en h);
  }
