-- ===== src/Migrate/Delivery.antt =====
-- Migrate of a whole tree: what the destination holds afterwards.
use vire_fs.Base.{
  ℕ, true, false, none, some, List, [], ◌∷◌, ◌≡◌, ◌≢◌, refl, ap, sym, ◌∙◌, ◌⊎◌, inl, inr,
  Option-cases, ◌<◌, All, subst,
}
use vire_fs.Bytes.{Bytes}
use vire_fs.Errors.{Error}
use vire_fs.Effect.{Context}
use vire_fs.Fs.{Fs, FileInfo}
use vire_fs.Fs.Contents.{Contents, Unchanged}
use vire_fs.Walk.{WalkFunc, Walked, returned, exhausted, walk}
use vire_fs.Walk.Preorder.{Forest, preorder, size}
use vire_fs.Walk.Tree.{Visits, stop, listing, call, Tree, TreeBelow-All}
use vire_fs.Walk.Visits.{Outcome, walk-Outcome}
use vire_fs.Migrate.{
  MigrateResult, MigrateConfig, MigrateOption, ConflictPolicy, conflict_error, destination_key,
  callback, migrate, apply_options, no_files,
}
use vire_fs.Migrate.Contents.{Copies, Grows, IsMovable}
use vire_fs.Migrate.Handled.{Settled, Handled}
use vire_fs.Migrate.Policies.{CallOf, callback-CallOf}
use vire_fs.Migrate.Carried.{callback-Carries}

module _ {W : Type 0} (from to : Contents W) where
  -- The destination got the key, and lost nothing.
  pub record Moved (key dst_key : Bytes) (w w' : W) : Type 0 where
    pub holds : to w' dst_key ≡ from w key
    pub found : from w key ≢ none
    pub grows : Grows to w w'
    pub source : Unchanged from w w'

  Handled-Moved :
      (Turn : Bytes → W → Type 0) (ctx : Context W) (dst : Fs W) (policy : ConflictPolicy)
      (key dst_key : Bytes) (w w' : W)
      → policy ≡ conflict_error
      → Handled from to Turn ctx dst policy key dst_key w w'
      → Moved key dst_key w w'
  Handled-Moved Turn ctx dst policy key dst_key w w' stops h = by_settled h.settled h.fresh
    where
      by_settled :
          Settled from to Turn ctx dst policy key dst_key w w'
          → (policy ≢ conflict_error) ⊎ (to w dst_key ≡ none)
          → Moved key dst_key w w'
      by_settled (inr (skips, _, _)) _ = cc (sym skips ∙ stops)
      by_settled (inl _) (inl other) = absurd (other stops)
      by_settled (inl (there, found)) (inr nothing) = record {
        holds = there;
        found = found;
        grows =
            λ q c held. h.others q c (λ same. cc (sym nothing ∙ ap (to w) (sym same) ∙ held)) held;
        source = h.source;
      }

module _ {W : Type 0} (from to : Contents W) (cfg : MigrateConfig W)
    (src_prefix dst_prefix : Bytes) where
  abbrev pub Arrived : W → W → FileInfo → Type 0
  Arrived w w' fi =
      (fi.is_dir ≡ true)
      ⊎ ((to w' (destination_key cfg.key_func src_prefix dst_prefix fi.key) ≡ from w fi.key)
          × (from w fi.key ≢ none))

  -- Every file that is listed is at its destination, which lost nothing, and the source is as it
  -- was.
  pub record Delivered (fis : List FileInfo) (w w' : W) : Type 0 where
    pub files : All (Arrived w w') fis
    pub grows : Grows to w w'
    pub source : Unchanged from w w'

  Arrived-before :
      (fi : FileInfo) (w v w' : W) → Unchanged from w v → Arrived v w' fi → Arrived w w' fi
  Arrived-before fi w v w' calm (inl is_dir) = inl is_dir
  Arrived-before fi w v w' calm (inr (there, found)) =
      inr (there ∙ calm fi.key, λ missing. found (calm fi.key ∙ missing))

  AllArrived-before :
      (fis : List FileInfo) (w v w' : W)
      → Unchanged from w v
      → All (Arrived v w') fis
      → All (Arrived w w') fis
  AllArrived-before [] w v w' calm _ = tt
  AllArrived-before (fi ∷ fis) w v w' calm (h, hs) =
      (Arrived-before fi w v w' calm h, AllArrived-before fis w v w' calm hs)

  -- What happened before, that left the source as it was and took nothing from the destination.
  Delivered-before :
      (fis : List FileInfo) (w v w' : W)
      → Unchanged from w v
      → Grows to w v
      → Delivered fis v w'
      → Delivered fis w w'
  Delivered-before fis w v w' calm grew d = record {
    files = AllArrived-before fis w v w' calm d.files;
    grows = λ q c there. d.grows q c (grew q c there);
    source = λ q. d.source q ∙ calm q;
  }

  -- A file that has arrived stays.
  Arrived-after : (fi : FileInfo) (w v w' : W) → Grows to v w' → Arrived w v fi → Arrived w w' fi
  Arrived-after fi w v w' grew (inl is_dir) = inl is_dir
  Arrived-after fi w v w' grew (inr (there, found)) = elim (Option-cases (from w fi.key)) [
    | inl missing ↦ absurd (found missing)
    | inr (c, held) ↦ inr (grew _ c (there ∙ held) ∙ sym held, found)
  ]

module _ {W : Type 0} (IsValid : Bytes → Type 0) (from to : Contents W) (ctx : Context W)
    (src dst : Fs W) (cfg : MigrateConfig W) (copies : Copies IsValid from to ctx src dst cfg)
    (stops : cfg.conflict ≡ conflict_error) (wet : cfg.dry_run ≡ false)
    (src_prefix dst_prefix : Bytes) where
  abbrev handler : WalkFunc W MigrateResult
  handler = callback ctx src dst cfg src_prefix dst_prefix

  abbrev IsEntry : FileInfo → Type 0
  IsEntry = IsMovable IsValid cfg src_prefix dst_prefix

  abbrev Reached : List FileInfo → W → W → Type 0
  Reached = Delivered from to cfg src_prefix dst_prefix

  CallOf-Delivered :
      (fi : FileInfo) (fis : List FileInfo) (s t u : W × MigrateResult)
      → CallOf IsValid from to ctx src dst cfg copies wet (λ _ _. Unit) src_prefix dst_prefix fi s t
      → Reached fis t.0 u.0
      → Reached (fi ∷ fis) s.0 u.0
  CallOf-Delivered fi fis s t u (inl (is_dir, same)) d =
      let d' = subst (λ (x : W × MigrateResult). Reached fis x.0 u.0) (sym same) d in
      record { files = (inl is_dir, d'.files); grows = d'.grows; source = d'.source }
  CallOf-Delivered fi fis s t u (inr (plain, h)) d =
      let m =
        Handled-Moved from to (λ _ _. Unit) ctx dst cfg.conflict fi.key
          (destination_key cfg.key_func src_prefix dst_prefix fi.key) s.0 t.0 stops h in
      let d' =
        Delivered-before from to cfg src_prefix dst_prefix fis s.0 t.0 u.0 m.source m.grows d in
      record {
        files = (
          Arrived-after from to cfg src_prefix dst_prefix fi s.0 t.0 u.0 d.grows
              (inr (m.holds, m.found)),
          d'.files,
        );
        grows = d'.grows;
        source = d'.source;
      }

  Visits-Delivered :
      {fis : List FileInfo} {s u : W × MigrateResult}
      → Visits ctx handler src fis s u
      → All IsEntry fis
      → Reached fis s.0 u.0
  Visits-Delivered stop _ = record { files = tt; grows = λ q c there. there; source = λ q. refl }
  Visits-Delivered (listing {fis} {files} {w} {v} {r} {s} prefix e more) ens =
      let (calm_from, calm_to) = copies.on_list prefix files w v e in
      Delivered-before from to cfg src_prefix dst_prefix fis w v s.0 calm_from
        (λ q c there. calm_to q ∙ there) (Visits-Delivered more ens)
  Visits-Delivered (call {fis} {s} {t} {u} fi e more) (en, ens) =
      CallOf-Delivered fi fis s t u
        (callback-CallOf IsValid from to ctx src dst cfg copies wet (λ _ _. Unit) src_prefix
          dst_prefix fi s t tt en e)
        (Visits-Delivered more ens)

  Outcome-Delivered :
      (fis : List FileInfo) (w : W) (s : W × MigrateResult) (x : Walked W MigrateResult)
      → All IsEntry fis
      → Outcome ctx handler src IsEntry (Unchanged from w) fis s x
      → ((x.0 ≡ returned none) × Reached fis s.0 x.1.0) ⊎ ((e : Error) × (x.0 ≡ returned (some e)))
  Outcome-Delivered fis w s (returned none, t) ens (v, _) = inl (refl, Visits-Delivered v ens)
  Outcome-Delivered fis w s (returned (some e), t) ens h = inr (e, refl)
  Outcome-Delivered fis w s (exhausted, t) ens h = absurd h

-- Migrate of a tree of valid keys, under the policy to stop, between stores that share nothing,
-- ends: with an error, or with nil. In that case the destination holds under its destination key
-- what the source holds of every file of the tree, it holds all that it held before, and the source
-- is as it was.
pub migrate-Delivered :
    {W : Type 0} (IsValid : Bytes → Type 0) (from to : Contents W) (fuel : ℕ) (ctx : Context W)
    (src dst : Fs W) (src_prefix dst_prefix : Bytes) (opts : List (MigrateOption W)) (w : W)
    (f : Forest)
    → Copies IsValid from to ctx src dst (apply_options opts)
    → (apply_options opts).conflict ≡ conflict_error
    → (apply_options opts).dry_run ≡ false
    → Tree ctx src
        (IsMovable IsValid (apply_options opts) src_prefix dst_prefix)
        (Unchanged from w)
        src_prefix
        f
    → size f < fuel
    → let x = migrate fuel ctx src src_prefix dst dst_prefix opts w in
      ((x.0 ≡ returned none)
        × Delivered from to (apply_options opts) src_prefix dst_prefix (preorder f) w x.1.0)
      ⊎ ((e : Error) × (x.0 ≡ returned (some e)))
unfolding migrate
migrate-Delivered IsValid from to fuel ctx src dst src_prefix dst_prefix opts w f copies stops wet
      (lists, below) lt =
    let cfg = apply_options opts in
    let fn = callback ctx src dst cfg src_prefix dst_prefix in
    let IsEntry' = IsMovable IsValid cfg src_prefix dst_prefix in
    Outcome-Delivered IsValid from to ctx src dst cfg copies stops wet src_prefix dst_prefix
      (preorder f) w (w, no_files) (walk ctx fn src fuel src_prefix (w, no_files))
      (TreeBelow-All ctx src IsEntry' (Unchanged from w) src_prefix f below)
      (walk-Outcome ctx fn src IsEntry' (Unchanged from w)
        (callback-Carries IsValid from to ctx src dst cfg copies wet src_prefix dst_prefix w) fuel
        src_prefix f (w, no_files) lt (λ q. refl) (lists, below))
