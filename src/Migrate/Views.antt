-- ===== src/Migrate/Views.antt =====
-- A view of the world that no operation of Migrate changes is as it was when Migrate ends.
use vire_fs.Base.{ℕ, none, some, ◌≡◌, ◌≢◌, refl, ◌∙◌, Option-cases, inl, inr}
use vire_fs.Bytes.{Bytes}
use vire_fs.Errors.{Result, ok, err}
use vire_fs.Effect.{Context}
use vire_fs.Fs.{Fs}
use vire_fs.Walk.{WalkEnd, returned, exhausted, walk}
use vire_fs.Walk.Invariant.{Answers, Keeps, IsInvariant, walk-Keeps}
use vire_fs.Migrate.{
  MigrateResult, MigrateProgress, MigrateConfig, ConflictPolicy, conflict_error, conflict_skip,
  conflict_overwrite, destination_key, Verdict, proceed, skip, refuse, check_conflict,
  transfer_file, report_progress, after_transfer, after_check, migrate_file, callback,
}
use vire_fs.Migrate.Callback.{callback-file, callback-dir, callback_of_error}

-- What the reading operations and the progress callback leave alone.
pub record ReadsOnly {W V : Type 0} (view : W → V) (ctx : Context W) (src dst : Fs W)
    (cfg : MigrateConfig W) : Type 0 where
  pub on_list : (prefix : Bytes) (w : W) → view (src.list ctx prefix w).1 ≡ view w
  pub on_exists : (key : Bytes) (w : W) → view (dst.exists ctx key w).1 ≡ view w
  pub on_progress :
      (f : MigrateProgress → W → W) (p : MigrateProgress) (w : W)
      → cfg.progress ≡ some f
      → view (f p w) ≡ view w

-- A file is transferred only where the check for a conflict lets it, in a world with view `v`, and
-- leaves that view.
abbrev pub TransfersKeep :
    {W V : Type 0} → (W → V) → V → Context W → Fs W → Fs W → MigrateConfig W → Type 0
TransfersKeep {W} view v ctx src dst cfg =
    (key dst_key : Bytes) (w : W)
    → view w ≡ v
    → (check_conflict ctx src dst cfg cfg.conflict dst_key w).0 ≡ proceed
    → view
        (transfer_file ctx src dst cfg cfg.dry_run key dst_key
          (check_conflict ctx src dst cfg cfg.conflict dst_key w).1).1
      ≡ v

module _ {W V : Type 0} (view : W → V) (ctx : Context W) (src dst : Fs W) (cfg : MigrateConfig W)
    (reads : ReadsOnly view ctx src dst cfg) where
  view-report_progress :
      (key : Bytes) (r : MigrateResult) (w : W) → view (report_progress cfg key r w) ≡ view w
  view-report_progress key r w = elim (Option-cases cfg.progress) [
    | inl unset ↦ rw unset
    | inr (f, set) ↦ rw set (reads.on_progress f _ w set)
  ]

  pub view-check_conflict :
      (dst_key : Bytes) (w : W)
      → view (check_conflict ctx src dst cfg cfg.conflict dst_key w).1 ≡ view w
  unfolding check_conflict
  view-check_conflict dst_key w = by_policy cfg.conflict
    where
      by_policy :
          (p : ConflictPolicy) → view (check_conflict ctx src dst cfg p dst_key w).1 ≡ view w
      by_policy conflict_error = reads.on_exists dst_key w
      by_policy conflict_skip = reads.on_exists dst_key w
      by_policy conflict_overwrite = refl

  module _ (v : V) (keep : TransfersKeep view v ctx src dst cfg) where
    abbrev Seen : W × MigrateResult → Type 0
    Seen (w, r) = view w ≡ v

    after_transfer-Seen :
        (key dst_key : Bytes) (r : MigrateResult) (t : Result (Unit {0}) × W)
        → view t.1 ≡ v
        → Answers Seen (λ _. Seen) (after_transfer ctx src dst cfg key dst_key r t)
    after_transfer-Seen key dst_key r (ok u, w) h = view-report_progress key _ w ∙ h
    after_transfer-Seen key dst_key r (err e, w) h = h

    after_check-Seen :
        (key dst_key : Bytes) (r : MigrateResult) (c : Verdict × W)
        → view c.1 ≡ v
        → (c.0 ≡ proceed → view (transfer_file ctx src dst cfg cfg.dry_run key dst_key c.1).1 ≡ v)
        → Answers Seen (λ _. Seen) (after_check ctx src dst cfg key dst_key r c)
    after_check-Seen key dst_key r (refuse e, w) h t = h
    after_check-Seen key dst_key r (skip, w) h t = view-report_progress key _ w ∙ h
    after_check-Seen key dst_key r (proceed, w) h t = after_transfer-Seen key dst_key r _ (t refl)

    migrate_file-Seen :
        (src_prefix dst_prefix key : Bytes) (s : W × MigrateResult)
        → Seen s
        → Answers Seen (λ _. Seen) (migrate_file ctx src dst cfg src_prefix dst_prefix key s)
    unfolding migrate_file
    migrate_file-Seen src_prefix dst_prefix key (w, r) h =
        let dst_key = destination_key cfg.key_func src_prefix dst_prefix key in
        after_check-Seen key dst_key _ (check_conflict ctx src dst cfg cfg.conflict dst_key w)
          (view-check_conflict dst_key w ∙ h) (keep key dst_key w h)

    Seen-IsInvariant :
        (src_prefix dst_prefix : Bytes)
        → IsInvariant Seen (λ _. Seen) ctx (callback ctx src dst cfg src_prefix dst_prefix) src
    Seen-IsInvariant src_prefix dst_prefix = record {
      cancelled = λ e s dead h. h;
      on_list = λ prefix s h. reads.on_list prefix s.0 ∙ h;
      on_file = λ fi s file h.
          rw (callback-file ctx src dst cfg src_prefix dst_prefix fi s file)
            (migrate_file-Seen src_prefix dst_prefix fi.key s h);
      on_dir = λ fi s dir h. rw (callback-dir ctx src dst cfg src_prefix dst_prefix fi s dir) h;
      on_error = λ prefix e w u r lists h.
          rw (callback_of_error ctx src dst cfg src_prefix dst_prefix prefix e (u, r)) h;
    }

    Keeps-Seen :
        (m : WalkEnd × (W × MigrateResult)) → Keeps Seen (λ _. Seen) m → m.0 ≢ exhausted → Seen m.1
    Keeps-Seen (returned none, s) h e = h
    Keeps-Seen (returned (some d), s) h e = h
    Keeps-Seen (exhausted, s) h e = absurd (e refl)

    pub walk-Seen :
        (fuel : ℕ) (src_prefix dst_prefix : Bytes) (s : W × MigrateResult)
        → view s.0 ≡ v
        → let m = walk ctx (callback ctx src dst cfg src_prefix dst_prefix) src fuel src_prefix s in
          m.0 ≢ exhausted → view m.1.0 ≡ v
    walk-Seen fuel src_prefix dst_prefix s h = Keeps-Seen _ (
        walk-Keeps Seen (λ _. Seen) ctx (callback ctx src dst cfg src_prefix dst_prefix) src
          (Seen-IsInvariant src_prefix dst_prefix) fuel src_prefix s h)
