-- ===== src/Migrate/Policies.antt =====
-- What Migrate does with one file, under each policy for a destination key that exists.
use vire_fs.Base.{
  Bool, true, false, none, [], ◌≡◌, ◌≢◌, refl, ap, sym, ◌∙◌, inl, inr, Bool-cases, ◌⊎◌, subst,
}
use vire_fs.Base.Int.{int_succ}
use vire_fs.Bytes.{Bytes}
use vire_fs.Errors.{Result, ok, err}
use vire_fs.Effect.{Context}
use vire_fs.Fs.{Fs, FileInfo, copy}
use vire_fs.Fs.Contents.{Contents}
use vire_fs.Fs.Copying.{copy-Copied}
use vire_fs.Migrate.{
  MigrateResult, MigrateConfig, ConflictPolicy, conflict_error, conflict_skip, conflict_overwrite,
  on_conflict, check_conflict, transfer_file, report_progress, after_transfer, after_check, skip,
  destination_key, migrate_file, callback,
}
use vire_fs.Migrate.Callback.{callback-file, callback-dir}
use vire_fs.Migrate.Contents.{Copies, IsMovable, report_calm}
use vire_fs.Migrate.Handled.{Handled, Handled-map}

module _ {W : Type 0} (IsValid : Bytes → Type 0) (from to : Contents W) (ctx : Context W)
    (src dst : Fs W) (cfg : MigrateConfig W) (copies : Copies IsValid from to ctx src dst cfg)
    (wet : cfg.dry_run ≡ false) (Turn : Bytes → W → Type 0) where
  transfer-Handled :
      (policy : ConflictPolicy) (key dst_key : Bytes) (r : MigrateResult) (w : W)
      (x : Result (Unit {0}) × W)
      → IsValid key
      → IsValid dst_key
      → (policy ≢ conflict_error) ⊎ (to w dst_key ≡ none)
      → copy ctx src key dst dst_key [] w ≡ x
      → {w' : W} {r' : MigrateResult}
      → after_transfer ctx src dst cfg key dst_key r x ≡ (none, (w', r'))
      → Handled from to Turn ctx dst policy key dst_key w w'
  transfer-Handled policy key dst_key r w (err e, v) src_valid dst_valid fresh done h = cc
  transfer-Handled policy key dst_key r w (ok t, v) src_valid dst_valid fresh done {w'} h =
      let c =
        copy-Copied IsValid from to ctx src dst copies.beside key dst_key [] w v src_valid dst_valid
          done in
      let r' = record r { copied = int_succ r.copied } in
      let calm = report_calm IsValid from to ctx src dst cfg copies key r' v in
      subst (Handled from to Turn ctx dst policy key dst_key w) (ap (λ a. a.1.0) h) (
        Handled-map from to Turn ctx dst policy key dst_key w w v (report_progress cfg key r' v)
          (λ q. refl, λ q. refl) calm
          (record {
            settled = inl (c.holds, c.found);
            others = c.others;
            source = c.source;
            fresh = fresh;
          }))

  wet-Handled :
      (policy : ConflictPolicy) (dry : Bool) (key dst_key : Bytes) (r : MigrateResult) (w : W)
      → IsValid key
      → IsValid dst_key
      → dry ≡ false
      → (policy ≢ conflict_error) ⊎ (to w dst_key ≡ none)
      → {w' : W} {r' : MigrateResult}
      → after_transfer ctx src dst cfg key dst_key r
          (transfer_file ctx src dst cfg dry key dst_key w)
        ≡ (none, (w', r'))
      → Handled from to Turn ctx dst policy key dst_key w w'
  unfolding transfer_file
  wet-Handled policy true key dst_key r w src_valid dst_valid is_wet fresh h = cc
  wet-Handled policy false key dst_key r w src_valid dst_valid is_wet fresh h =
      transfer-Handled policy key dst_key r w (copy ctx src key dst dst_key [] w) src_valid
        dst_valid fresh refl h

  skip-Handled :
      (key dst_key : Bytes) (r : MigrateResult) (w v : W)
      → Turn key w
      → dst.exists ctx dst_key w ≡ (ok true, v)
      → {w' : W} {r' : MigrateResult}
      → after_check ctx src dst cfg key dst_key r (skip, v) ≡ (none, (w', r'))
      → Handled from to Turn ctx dst conflict_skip key dst_key w w'
  skip-Handled key dst_key r w v turn asked h =
      let calm = copies.exists_calm dst_key true w v asked in
      let r' = record r { skipped = int_succ r.skipped } in
      let calm' = report_calm IsValid from to ctx src dst cfg copies key r' v in
      subst (Handled from to Turn ctx dst conflict_skip key dst_key w) (ap (λ a. a.1.0) h) (
        Handled-map from to Turn ctx dst conflict_skip key dst_key w v v
          (report_progress cfg key r' v) calm calm'
          (record {
            settled = inr (refl, (w, v, turn, asked), inr refl);
            others = λ q c ne there. there;
            source = λ q. refl;
            fresh = inl (λ same. cc);
          }))

  -- After the check of a policy that makes one, by what Exists answered.
  asked-Handled :
      (policy : ConflictPolicy) (key dst_key : Bytes) (r : MigrateResult) (w : W)
      (a : Result Bool × W)
      → Turn key w
      → IsValid key
      → IsValid dst_key
      → policy ≢ conflict_overwrite
      → dst.exists ctx dst_key w ≡ a
      → {w' : W} {r' : MigrateResult}
      → after_check ctx src dst cfg key dst_key r
          (on_conflict ctx src dst cfg policy dst_key a.0, a.1)
        ≡ (none, (w', r'))
      → Handled from to Turn ctx dst policy key dst_key w w'
  asked-Handled policy key dst_key r w (err e, v) turn src_valid dst_valid asks asked h = cc
  asked-Handled conflict_error key dst_key r w (ok true, v) turn src_valid dst_valid asks asked h =
      cc
  asked-Handled conflict_skip key dst_key r w (ok true, v) turn src_valid dst_valid asks asked h =
      skip-Handled key dst_key r w v turn asked h
  asked-Handled conflict_overwrite key dst_key r w (ok true, v) turn src_valid dst_valid asks asked
        h =
      absurd (asks refl)
  asked-Handled policy key dst_key r w (ok false, v) turn src_valid dst_valid asks asked {w'} h =
      let calm = copies.exists_calm dst_key false w v asked in
      Handled-map from to Turn ctx dst policy key dst_key w v w' w' calm (λ q. refl, λ q. refl)
        (wet-Handled policy cfg.dry_run key dst_key r v src_valid dst_valid wet
          (inr (calm.1 dst_key ∙ copies.truthful dst_key w v dst_valid asked)) h)

  checked-Handled :
      (policy : ConflictPolicy) (key dst_key : Bytes) (r : MigrateResult) (w : W)
      → Turn key w
      → IsValid key
      → IsValid dst_key
      → {w' : W} {r' : MigrateResult}
      → after_check ctx src dst cfg key dst_key r (check_conflict ctx src dst cfg policy dst_key w)
        ≡ (none, (w', r'))
      → Handled from to Turn ctx dst policy key dst_key w w'
  unfolding check_conflict
  checked-Handled conflict_overwrite key dst_key r w turn src_valid dst_valid h =
      wet-Handled conflict_overwrite cfg.dry_run key dst_key r w src_valid dst_valid wet
        (inl (λ same. cc)) h
  checked-Handled conflict_skip key dst_key r w turn src_valid dst_valid h =
      asked-Handled conflict_skip key dst_key r w (dst.exists ctx dst_key w) turn src_valid
        dst_valid (λ same. cc) refl h
  checked-Handled conflict_error key dst_key r w turn src_valid dst_valid h =
      asked-Handled conflict_error key dst_key r w (dst.exists ctx dst_key w) turn src_valid
        dst_valid (λ same. cc) refl h

  module _ (src_prefix dst_prefix : Bytes) where
    abbrev pub target : Bytes → Bytes
    target key = destination_key cfg.key_func src_prefix dst_prefix key

    migrate_file-Handled :
        (key : Bytes) (w w' : W) (r r' : MigrateResult)
        → Turn key w
        → IsValid key
        → IsValid (target key)
        → migrate_file ctx src dst cfg src_prefix dst_prefix key (w, r) ≡ (none, (w', r'))
        → Handled from to Turn ctx dst cfg.conflict key (target key) w w'
    unfolding migrate_file
    migrate_file-Handled key w w' r r' turn src_valid dst_valid h =
        checked-Handled cfg.conflict key (target key) (record r { total = int_succ r.total }) w turn
          src_valid dst_valid h

    -- The callback on an entry, if it answers nil.
    abbrev pub CallOf : FileInfo → W × MigrateResult → W × MigrateResult → Type 0
    CallOf fi s t =
        ((fi.is_dir ≡ true) × (s ≡ t))
        ⊎ ((fi.is_dir ≡ false)
            × Handled from to Turn ctx dst cfg.conflict fi.key (target fi.key) s.0 t.0)

    pub callback-CallOf :
        (fi : FileInfo) (s t : W × MigrateResult)
        → Turn fi.key s.0
        → IsMovable IsValid cfg src_prefix dst_prefix fi
        → callback ctx src dst cfg src_prefix dst_prefix fi.key fi none s ≡ (none, t)
        → CallOf fi s t
    callback-CallOf fi s t turn (inl dir) h =
        inl (
          dir,
          ap (λ a. a.1) (sym (callback-dir ctx src dst cfg src_prefix dst_prefix fi s dir) ∙ h),
        )
    callback-CallOf fi (w, r) (w', r') turn (inr (src_valid, dst_valid)) h =
        elim (Bool-cases fi.is_dir) [
          | inl dir ↦ inl (
            dir,
            ap (λ a. a.1)
                (sym (callback-dir ctx src dst cfg src_prefix dst_prefix fi (w, r) dir) ∙ h),
          )
          | inr file ↦ inr (
            file,
            migrate_file-Handled fi.key w w' r r' turn src_valid dst_valid
                (sym (callback-file ctx src dst cfg src_prefix dst_prefix fi (w, r) file) ∙ h),
          )
        ]
