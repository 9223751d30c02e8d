-- ===== src/Migrate/Policy.antt =====
-- Migrate of a whole tree under any policy.
use vire_fs.Base.{
  ◌∙◌, append-nil, append_assoc, ℕ, false, none, some, List, [], ◌∷◌, ◌++◌, ◌≡◌, refl, sym, ◌⊎◌,
  inl, inr, ◌<◌, All, subst,
}
use vire_fs.Bytes.{Bytes}
use vire_fs.Errors.{Error}
use vire_fs.Effect.{Context}
use vire_fs.Fs.{Fs, FileInfo}
use vire_fs.Fs.Contents.{Contents, Unchanged}
use vire_fs.Walk.{WalkFunc, Walked, returned, exhausted, walk}
use vire_fs.Walk.Preorder.{Forest, preorder, size}
use vire_fs.Walk.Tree.{Visits, Visits-append, stop, listing, call, Tree, TreeBelow-All}
use vire_fs.Walk.Visits.{Outcome, walk-Outcome}
use vire_fs.Migrate.{
  MigrateResult, MigrateConfig, MigrateOption, callback, migrate, apply_options, no_files,
}
use vire_fs.Migrate.Contents.{Copies, IsMovable}
use vire_fs.Migrate.Policies.{CallOf, callback-CallOf}
use vire_fs.Migrate.Carried.{callback-Carries}
use vire_fs.Migrate.Settled.{Elsewhere, Distinct, AllSettled, AllSettled-before, AllSettled-call}

module _ {W : Type 0} (ctx : Context W) (src dst : Fs W) (cfg : MigrateConfig W)
    (src_prefix dst_prefix : Bytes) (all : List FileInfo) (start : W × MigrateResult) where
  -- In this world it is the turn of a file of the list: the callback has answered nil for the
  -- entries before it, from the start on, and between its calls directories were listed.
  pub record Turn (key : Bytes) (v : W) : Type 0 where
    pub before : List FileInfo
    pub fi : FileInfo
    pub after : List FileInfo
    pub counters : MigrateResult
    pub is : fi.key ≡ key
    pub order : all ≡ before ++ (fi ∷ after)
    pub so_far :
        Visits ctx (callback ctx src dst cfg src_prefix dst_prefix) src before start (v, counters)

module _ {W : Type 0} (IsValid : Bytes → Type 0) (from to : Contents W) (ctx : Context W)
    (src dst : Fs W) (cfg : MigrateConfig W) (copies : Copies IsValid from to ctx src dst cfg)
    (wet : cfg.dry_run ≡ false) (src_prefix dst_prefix : Bytes) where
  abbrev handler : WalkFunc W MigrateResult
  handler = callback ctx src dst cfg src_prefix dst_prefix

  abbrev IsEntry : FileInfo → Type 0
  IsEntry = IsMovable IsValid cfg src_prefix dst_prefix

  module _ (all : List FileInfo) (start : W × MigrateResult) where
    abbrev TurnHere : Bytes → W → Type 0
    TurnHere = Turn ctx src dst cfg src_prefix dst_prefix all start

    abbrev Reached : List FileInfo → W → W → Type 0
    Reached = AllSettled from to TurnHere ctx dst cfg src_prefix dst_prefix

    CallOf-AllSettled :
        (fi : FileInfo) (fis : List FileInfo) (s t u : W × MigrateResult)
        → CallOf IsValid from to ctx src dst cfg copies wet TurnHere src_prefix dst_prefix fi s t
        → All (Elsewhere cfg src_prefix dst_prefix fi) fis
        → Reached fis t.0 u.0
        → Reached (fi ∷ fis) s.0 u.0
    CallOf-AllSettled fi fis s t u (inl (is_dir, same)) apart d =
        let d' = subst (λ (x : W × MigrateResult). Reached fis x.0 u.0) (sym same) d in
        record {
          files = (inl is_dir, d'.files);
          others = λ q c (here, there) held. d'.others q c there held;
          source = d'.source;
        }
    CallOf-AllSettled fi fis s t u (inr (file, h)) apart d =
        AllSettled-call from to TurnHere ctx dst cfg src_prefix dst_prefix fi fis s.0 t.0 u.0 file h
          apart d

    Visits-AllSettled :
        (before : List FileInfo) {fis : List FileInfo} {s u : W × MigrateResult}
        → all ≡ before ++ fis
        → Visits ctx handler src before start s
        → Visits ctx handler src fis s u
        → All IsEntry fis
        → Distinct cfg src_prefix dst_prefix fis
        → Reached fis s.0 u.0
    Visits-AllSettled before order so_far stop _ _ = record {
      files = tt;
      others = λ q c _ there. there;
      source = λ q. refl;
    }
    Visits-AllSettled before order so_far (listing {fis} {files} {w} {v} {r} {s} prefix e more) ens
          apart =
        let so_far' =
          subst (λ l. Visits ctx handler src l start (v, r)) (append-nil before)
            (Visits-append ctx handler src so_far (listing prefix e stop)) in
        AllSettled-before from to TurnHere ctx dst cfg src_prefix dst_prefix fis w v s.0
          (copies.on_list prefix files w v e)
          (Visits-AllSettled before order so_far' more ens apart)
    Visits-AllSettled before order so_far (call {fis} {s} {t} {u} fi e more) (en, ens)
          (apart, aparts) =
        let turn : TurnHere fi.key s.0 = record {
          before = before;
          fi = fi;
          after = fis;
          counters = s.1;
          is = refl;
          order = order;
          so_far = so_far;
        } in
        CallOf-AllSettled fi fis s t u
          (callback-CallOf IsValid from to ctx src dst cfg copies wet TurnHere src_prefix dst_prefix
            fi s t turn en e)
          apart
          (Visits-AllSettled (before ++ (fi ∷ [])) (order ∙ sym (append_assoc before (fi ∷ []) fis))
            (Visits-append ctx handler src so_far (call fi e stop)) more ens aparts)

  Outcome-AllSettled :
      (fis : List FileInfo) (w : W) (s : W × MigrateResult) (x : Walked W MigrateResult)
      → All IsEntry fis
      → Distinct cfg src_prefix dst_prefix fis
      → Outcome ctx handler src IsEntry (Unchanged from w) fis s x
      → ((x.0 ≡ returned none) × Reached fis s fis s.0 x.1.0)
        ⊎ ((e : Error) × (x.0 ≡ returned (some e)))
  Outcome-AllSettled fis w s (returned none, t) ens apart (v, _) =
      inl (refl, Visits-AllSettled fis s [] refl stop v ens apart)
  Outcome-AllSettled fis w s (returned (some e), t) ens apart h = inr (e, refl)
  Outcome-AllSettled fis w s (exhausted, t) ens apart h = absurd h

-- Migrate of a tree of valid keys, between stores that share nothing, ends under every policy: with
-- an error, or with nil. In the second case, if no two files go to the same key, the destination
-- holds under its destination key what the source holds of every file of the tree, unless the policy
-- is to skip and Exists said, when the turn of the file came, that the key is there: then a file that
-- the destination held at the key is as it was. What the destination held at other keys it holds
-- still, and the source is as it was.
pub migrate-AllSettled :
    {W : Type 0} (IsValid : Bytes → Type 0) (from to : Contents W) (fuel : ℕ) (ctx : Context W)
    (src dst : Fs W) (src_prefix dst_prefix : Bytes) (opts : List (MigrateOption W)) (w : W)
    (f : Forest)
    → Copies IsValid from to ctx src dst (apply_options opts)
    → (apply_options opts).dry_run ≡ false
    → Tree ctx src
        (IsMovable IsValid (apply_options opts) src_prefix dst_prefix)
        (Unchanged from w)
        src_prefix
        f
    → Distinct (apply_options opts) src_prefix dst_prefix (preorder f)
    → size f < fuel
    → let x = migrate fuel ctx src src_prefix dst dst_prefix opts w in
      ((x.0 ≡ returned none)
        × AllSettled from to
            (Turn ctx src dst (apply_options opts) src_prefix dst_prefix (preorder f) (w, no_files))
            ctx
            dst
            (apply_options opts)
            src_prefix
            dst_prefix
            (preorder f)
            w
            x.1.0)
      ⊎ ((e : Error) × (x.0 ≡ returned (some e)))
unfolding migrate
migrate-AllSettled IsValid from to fuel ctx src dst src_prefix dst_prefix opts w f copies wet
      (lists, below) apart lt =
    let cfg = apply_options opts in
    let fn = callback ctx src dst cfg src_prefix dst_prefix in
    let IsEntry' = IsMovable IsValid cfg src_prefix dst_prefix in
    Outcome-AllSettled IsValid from to ctx src dst cfg copies wet src_prefix dst_prefix (preorder f)
      w (w, no_files) (walk ctx fn src fuel src_prefix (w, no_files))
      (TreeBelow-All ctx src IsEntry' (Unchanged from w) src_prefix f below) apart
      (walk-Outcome ctx fn src IsEntry' (Unchanged from w)
        (callback-Carries IsValid from to ctx src dst cfg copies wet src_prefix dst_prefix w) fuel
        src_prefix f (w, no_files) lt (λ q. refl) (lists, below))
