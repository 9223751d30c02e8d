-- ===== src/Migrate/Counters.antt =====
-- The counters of Migrate.
use vire_fs.Base.{
  ℕ, ◌+◌, ◌%◌, Bool, true, false, some, List, [], ◌∷◌, ◌≡◌, ◌≢◌, refl, sym, ◌∙◌, arith,
}
use vire_fs.Base.Int.{word, int_succ}
use vire_fs.Bytes.{Bytes}
use vire_fs.Errors.{Error, wrap, Result, ok, err}
use vire_fs.Effect.{Context}
use vire_fs.Fs.{Fs, copy}
use vire_fs.Walk.Invariant.{Answers, Keeps, IsInvariant, walk-Keeps}
use vire_fs.Migrate.{
  MigrateResult, MigrateConfig, MigrateOption, ConflictPolicy, conflict_error, conflict_skip,
  conflict_overwrite, exists_error, destination_key, on_conflict, check_conflict, transfer_file,
  after_transfer, after_check, migrate_file, callback, migrate, apply_options, no_files,
}
use vire_fs.Migrate.Callback.{callback-file, callback-dir, callback_of_error}

-- Every file that was counted has been copied or skipped, but the one at which an error came up.
abbrev pub OneMore : MigrateResult → Type 0
OneMore r = r.total ≡ (r.copied + r.skipped + 1) % word

module _ {W : Type 0} where
  -- Every file that was counted has been copied or skipped. The counters wrap around at 2^64.
  abbrev pub Balanced : W × MigrateResult → Type 0
  Balanced (w, r) = r.total ≡ (r.copied + r.skipped) % word

  module _ (ctx : Context W) (src dst : Fs W) (cfg : MigrateConfig W) where
    -- The errors that Migrate ends with, and the counters then: balanced where the context or a
    -- List ended it, and with one file more in the total where a file did.
    pub data Ended : Error → W × MigrateResult → Type 0 where
      cancelled :
          {e : Error} {w : W} {r : MigrateResult}
          → ctx w ≡ some e
          → Balanced (w, r)
          → Ended e (w, r)
      unlisted :
          {e : Error} {w : W} {r : MigrateResult} (prefix : Bytes) (v : W)
          → src.list ctx prefix v ≡ (err e, w)
          → Balanced (w, r)
          → Ended e (w, r)
      taken :
          {w : W} {r : MigrateResult} (dst_key : Bytes) (v : W)
          → cfg.conflict ≡ conflict_error
          → dst.exists ctx dst_key v ≡ (ok true, w)
          → OneMore r
          → Ended (exists_error dst_key) (w, r)
      unchecked :
          {e : Error} {w : W} {r : MigrateResult} (dst_key : Bytes) (v : W)
          → cfg.conflict ≢ conflict_overwrite
          → dst.exists ctx dst_key v ≡ (err e, w)
          → OneMore r
          → Ended (wrap "migrate: check exists %q: %w" (dst_key ∷ []) e) (w, r)
      uncopied :
          {e : Error} {w : W} {r : MigrateResult} (key dst_key : Bytes) (v : W)
          → cfg.dry_run ≡ false
          → copy ctx src key dst dst_key [] v ≡ (err e, w)
          → OneMore r
          → Ended (wrap "migrate: copy %q -> %q: %w" (key ∷ dst_key ∷ []) e) (w, r)

    after_transfer-Answers :
        (key dst_key : Bytes) (r : MigrateResult) (dry : Bool) (w : W)
        → cfg.dry_run ≡ dry
        → OneMore r
        → Answers Balanced Ended (
            after_transfer ctx src dst cfg key dst_key r
              (transfer_file ctx src dst cfg dry key dst_key w))
    unfolding transfer_file
    after_transfer-Answers key dst_key r true w d h = omega arith
    after_transfer-Answers key dst_key r false w d h =
        by_copy (copy ctx src key dst dst_key [] w) refl
      where
        by_copy :
            (t : Result (Unit {0}) × W)
            → copy ctx src key dst dst_key [] w ≡ t
            → Answers Balanced Ended (after_transfer ctx src dst cfg key dst_key r t)
        by_copy (ok u, v) e = omega arith
        by_copy (err c, v) e = uncopied key dst_key w d e h

    on_conflict-Answers :
        (key dst_key : Bytes) (r : MigrateResult) (w : W) (p : ConflictPolicy) (a : Result Bool × W)
        → cfg.conflict ≡ p
        → p ≢ conflict_overwrite
        → dst.exists ctx dst_key w ≡ a
        → OneMore r
        → Answers Balanced Ended (
            after_check ctx src dst cfg key dst_key r
              (on_conflict ctx src dst cfg p dst_key a.0, a.1))
    on_conflict-Answers key dst_key r w p (err e, v) is other asked h =
        unchecked dst_key w (λ same. other (sym is ∙ same)) asked h
    on_conflict-Answers key dst_key r w p (ok false, v) is other asked h =
        after_transfer-Answers key dst_key r cfg.dry_run v refl h
    on_conflict-Answers key dst_key r w conflict_skip (ok true, v) is other asked h = omega arith
    on_conflict-Answers key dst_key r w conflict_overwrite (ok true, v) is other asked h =
        absurd (other refl)
    on_conflict-Answers key dst_key r w conflict_error (ok true, v) is other asked h =
        taken dst_key w is asked h

    after_check-Answers :
        (key dst_key : Bytes) (r : MigrateResult) (w : W) (p : ConflictPolicy)
        → cfg.conflict ≡ p
        → OneMore r
        → Answers Balanced Ended
            (after_check ctx src dst cfg key dst_key r (check_conflict ctx src dst cfg p dst_key w))
    unfolding check_conflict
    after_check-Answers key dst_key r w conflict_overwrite is h =
        after_transfer-Answers key dst_key r cfg.dry_run w refl h
    after_check-Answers key dst_key r w conflict_error is h =
        on_conflict-Answers key dst_key r w conflict_error _ is (λ e. cc) refl h
    after_check-Answers key dst_key r w conflict_skip is h =
        on_conflict-Answers key dst_key r w conflict_skip _ is (λ e. cc) refl h

    migrate_file-Answers :
        (src_prefix dst_prefix key : Bytes) (s : W × MigrateResult)
        → Balanced s
        → Answers Balanced Ended (migrate_file ctx src dst cfg src_prefix dst_prefix key s)
    unfolding migrate_file
    migrate_file-Answers src_prefix dst_prefix key (w, r) h =
        after_check-Answers key (destination_key cfg.key_func src_prefix dst_prefix key)
          (record r { total = int_succ r.total }) w cfg.conflict refl (omega arith)

    Balanced-IsInvariant :
        (src_prefix dst_prefix : Bytes)
        → IsInvariant Balanced Ended ctx (callback ctx src dst cfg src_prefix dst_prefix) src
    Balanced-IsInvariant src_prefix dst_prefix = record {
      cancelled = λ e s dead h. cancelled dead h;
      on_list = λ prefix s h. h;
      on_file = λ fi s file h.
          rw (callback-file ctx src dst cfg src_prefix dst_prefix fi s file)
            (migrate_file-Answers src_prefix dst_prefix fi.key s h);
      on_dir = λ fi s dir h. rw (callback-dir ctx src dst cfg src_prefix dst_prefix fi s dir) h;
      on_error = λ prefix e w v r lists h.
          rw (callback_of_error ctx src dst cfg src_prefix dst_prefix prefix e (v, r))
            (unlisted prefix w lists h);
    }

  -- When Migrate ends without error, the total is the number of files copied and skipped. An error
  -- is one of the context or of List, with the same balance, or that of a file whose destination
  -- is taken, could not be asked for or could not be copied to, and then the total is one more. All
  -- counters wrap around at 2^64.
  pub migrate-Balanced :
      (fuel : ℕ) (ctx : Context W) (src dst : Fs W) (src_prefix dst_prefix : Bytes)
      (opts : List (MigrateOption W)) (w : W)
      → Keeps Balanced
          (Ended ctx src dst (apply_options opts))
          (migrate fuel ctx src src_prefix dst dst_prefix opts w)
  unfolding migrate
  migrate-Balanced fuel ctx src dst src_prefix dst_prefix opts w =
      walk-Keeps Balanced (Ended ctx src dst (apply_options opts)) ctx
        (callback ctx src dst (apply_options opts) src_prefix dst_prefix) src
        (Balanced-IsInvariant ctx src dst (apply_options opts) src_prefix dst_prefix) fuel
        src_prefix (w, no_files) refl
