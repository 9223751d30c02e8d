-- ===== src/Migrate/Handled.antt =====
-- What becomes of one file in a migration.
use vire_fs.Base.{true, none, some, ◌≡◌, ◌≢◌, sym, ◌∙◌, inl, inr, ◌⊎◌}
use vire_fs.Bytes.{Bytes}
use vire_fs.Errors.{ok}
use vire_fs.Effect.{Context}
use vire_fs.Fs.{Fs}
use vire_fs.Fs.Contents.{Contents, Unchanged}
use vire_fs.Migrate.{ConflictPolicy, conflict_error, conflict_skip}

module _ {W : Type 0} (from to : Contents W) (Turn : Bytes → W → Type 0) (ctx : Context W)
    (dst : Fs W) (policy : ConflictPolicy) where
  -- A file after Migrate: copied, or passed over under the policy to skip because Exists said, when
  -- it was the file's turn, that the key is there. What the destination held there at the start, it
  -- holds still.
  abbrev pub Settled : Bytes → Bytes → W → W → Type 0
  Settled key dst_key w w' =
      ((to w' dst_key ≡ from w key) × (from w key ≢ none))
      ⊎ ((policy ≡ conflict_skip)
          × ((v : W) × (u : W) × Turn key v × (dst.exists ctx dst_key v ≡ (ok true, u)))
          × ((to w dst_key ≡ none) ⊎ (to w' dst_key ≡ to w dst_key)))

  -- What the call for one file did.
  pub record Handled (key dst_key : Bytes) (w w' : W) : Type 0 where
    pub settled : Settled key dst_key w w'
    pub others : (q c : Bytes) → q ≢ dst_key → to w q ≡ some c → to w' q ≡ some c
    pub source : Unchanged from w w'
    pub fresh : (policy ≢ conflict_error) ⊎ (to w dst_key ≡ none)

  -- Steps that change no contents, before and after.
  pub Settled-map :
      (key dst_key : Bytes) (w v v' w' : W)
      → Unchanged from w v × Unchanged to w v
      → Unchanged to v' w'
      → Settled key dst_key v v'
      → Settled key dst_key w w'
  Settled-map key dst_key w v v' w' (calm_from, calm_to) after (inl (there, found)) =
      inl (after dst_key ∙ there ∙ calm_from key, λ missing. found (calm_from key ∙ missing))
  Settled-map key dst_key w v v' w' (calm_from, calm_to) after (inr (skips, asked, inl nothing)) =
      inr (skips, asked, inl (sym (calm_to dst_key) ∙ nothing))
  Settled-map key dst_key w v v' w' (calm_from, calm_to) after (inr (skips, asked, inr same)) =
      inr (skips, asked, inr (after dst_key ∙ same ∙ calm_to dst_key))

  pub Handled-map :
      (key dst_key : Bytes) (w v v' w' : W)
      → Unchanged from w v × Unchanged to w v
      → Unchanged from v' w' × Unchanged to v' w'
      → Handled key dst_key v v'
      → Handled key dst_key w w'
  Handled-map key dst_key w v v' w' (calm_from, calm_to) (after_from, after_to) h = record {
    settled = Settled-map key dst_key w v v' w' (calm_from, calm_to) after_to h.settled;
    others = λ q c ne there. after_to q ∙ h.others q c ne (calm_to q ∙ there);
    source = λ q. after_from q ∙ h.source q ∙ calm_from q;
    fresh = fresh_before h.fresh;
  }
    where
      fresh_before :
          (policy ≢ conflict_error) ⊎ (to v dst_key ≡ none)
          → (policy ≢ conflict_error) ⊎ (to w dst_key ≡ none)
      fresh_before (inl other) = inl other
      fresh_before (inr none_there) = inr (sym (calm_to dst_key) ∙ none_there)
