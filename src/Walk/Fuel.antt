-- ===== src/Walk/Fuel.antt =====
-- How deep the recursion of Walk goes.
use vire_fs.Base.{
  ℕ, zero, suc, ◌<◌, Bool, true, false, Option, none, some, List, [], ◌∷◌, All, Bool-cases, inl,
  inr, ◌≡◌, ◌≢◌, refl, arith,
}
use vire_fs.Bytes.{Bytes}
use vire_fs.Errors.{Error, skip_dir, errors_is, Result, ok, err}
use vire_fs.Effect.{Context}
use vire_fs.Fs.{Fs, FileInfo}
use vire_fs.Walk.{
  WalkFunc, returned, exhausted, Walked, sub_prefix, and_then, after_dir, after_file, after_entry,
  visit, walk_files, after_list, walk,
}

module _ {W R : Type 0} where
  abbrev pub Ends : Walked W R → Type 0
  Ends r = r.0 ≢ exhausted

  -- `g` does what `f` does, wherever `f` ends.
  abbrev Extends : (f g : W × R → Walked W R) → Type 0
  Extends f g = (s : W × R) → Ends (f s) → g s ≡ f s

  module _ (rest rest' : W × R → Walked W R) (more : Extends rest rest') where
    and_then-Extends :
        (r r' : Walked W R)
        → (Ends r → r' ≡ r)
        → Ends (and_then r rest)
        → and_then r' rest' ≡ and_then r rest
    and_then-Extends (returned none, s) r' h e = rw (h (λ x. cc)) (more s e)
    and_then-Extends (returned (some d), s) r' h e = rw (h (λ x. cc))
    and_then-Extends (exhausted, s) r' h e = absurd (e refl)

    after_file-Extends :
        (a : Option Error × (W × R))
        → Ends (after_file a rest)
        → after_file a rest' ≡ after_file a rest
    after_file-Extends (none, s) e = more s e
    after_file-Extends (some d, s) e = refl

    module _ (below below' : W × R → Walked W R) (deeper : Extends below below') where
      after_dir-Extends :
          (a : Option Error × (W × R))
          → Ends (after_dir a below rest)
          → after_dir a below' rest' ≡ after_dir a below rest
      after_dir-Extends (none, s) e = and_then-Extends (below s) (below' s) (deeper s) e
      after_dir-Extends (some d, s) e = elim (Bool-cases (errors_is d skip_dir)) [
        | inl skip ↦ rw skip (more s (rw skip at e))
        | inr stop ↦ rw stop
      ]

      after_entry-Extends :
          (is_dir : Bool) (a : Option Error × (W × R))
          → Ends (after_entry is_dir a below rest)
          → after_entry is_dir a below' rest' ≡ after_entry is_dir a below rest
      after_entry-Extends true a e = after_dir-Extends a e
      after_entry-Extends false a e = after_file-Extends a e

  module _ (ctx : Context W) (fn : WalkFunc W R) where
    visit-Extends :
        (below below' rest rest' : W × R → Walked W R)
        → Extends below below'
        → Extends rest rest'
        → (o : Option Error) (fi : FileInfo)
        → Extends (visit ctx fn o fi below rest) (visit ctx fn o fi below' rest')
    visit-Extends below below' rest rest' deeper more (some d) fi s e = refl
    visit-Extends below below' rest rest' deeper more none fi s e =
        after_entry-Extends rest rest' more below below' deeper fi.is_dir (fn fi.key fi none s) e

    module _ (walk walk' : Bytes → W × R → Walked W R)
        (h : (prefix : Bytes) → Extends (walk prefix) (walk' prefix)) where
      walk_files-Extends :
          (prefix : Bytes) (files : List FileInfo)
          → Extends (walk_files ctx fn walk prefix files) (walk_files ctx fn walk' prefix files)
      unfolding walk_files
      walk_files-Extends prefix [] s e = refl
      walk_files-Extends prefix (fi ∷ files) s e =
          visit-Extends (walk (sub_prefix prefix fi.key)) (walk' (sub_prefix prefix fi.key))
            (walk_files ctx fn walk prefix files) (walk_files ctx fn walk' prefix files)
            (h (sub_prefix prefix fi.key)) (walk_files-Extends prefix files) (ctx s.0) fi s e

      after_list-Extends :
          (prefix : Bytes) (r : R) (l : Result (List FileInfo) × W)
          → Ends (after_list ctx fn walk prefix r l)
          → after_list ctx fn walk' prefix r l ≡ after_list ctx fn walk prefix r l
      after_list-Extends prefix r (ok files, w) e = walk_files-Extends prefix files (w, r) e
      after_list-Extends prefix r (err d, w) e = refl

    -- A walk that ends within some fuel ends in the same way with more.
    walk-suc :
        (fsys : Fs W) (fuel : ℕ) (prefix : Bytes) (s : W × R)
        → Ends (walk ctx fn fsys fuel prefix s)
        → walk ctx fn fsys (suc fuel) prefix s ≡ walk ctx fn fsys fuel prefix s
    unfolding walk
    walk-suc fsys zero prefix s e = absurd (e refl)
    walk-suc fsys (suc fuel) prefix s e =
        after_list-Extends (walk ctx fn fsys fuel) (walk ctx fn fsys (suc fuel))
          (walk-suc fsys fuel) prefix s.1 (fsys.list ctx prefix s.0) e

    -- Every directory that List gives ranks below the directory that it was listed for.
    abbrev pub Ranked : Fs W → (Bytes → ℕ) → Type 0
    Ranked fsys rank =
        (prefix : Bytes) (w w' : W) (files : List FileInfo)
        → fsys.list ctx prefix w ≡ (ok files, w')
        → All (λ fi. fi.is_dir ≡ true → rank (sub_prefix prefix fi.key) < rank prefix) files

    and_then-Ends :
        (r : Walked W R) (rest : W × R → Walked W R)
        → Ends r
        → ((s : W × R) → Ends (rest s))
        → Ends (and_then r rest)
    and_then-Ends (returned none, s) rest e more = more s
    and_then-Ends (returned (some d), s) rest e more = λ x. cc
    and_then-Ends (exhausted, s) rest e more = e

    after_dir-Ends :
        (a : Option Error × (W × R)) (below rest : W × R → Walked W R)
        → ((s : W × R) → Ends (below s))
        → ((s : W × R) → Ends (rest s))
        → Ends (after_dir a below rest)
    after_dir-Ends (none, s) below rest deeper more = and_then-Ends (below s) rest (deeper s) more
    after_dir-Ends (some d, s) below rest deeper more = elim (Bool-cases (errors_is d skip_dir)) [
      | inl skip ↦ rw skip (more s)
      | inr stop ↦ rw stop (λ x. cc)
    ]

    after_file-Ends :
        (a : Option Error × (W × R)) (rest : W × R → Walked W R)
        → ((s : W × R) → Ends (rest s))
        → Ends (after_file a rest)
    after_file-Ends (none, s) rest more = more s
    after_file-Ends (some d, s) rest more = λ x. cc

    after_entry-Ends :
        (is_dir : Bool) (a : Option Error × (W × R)) (below rest : W × R → Walked W R)
        → (is_dir ≡ true → (s : W × R) → Ends (below s))
        → ((s : W × R) → Ends (rest s))
        → Ends (after_entry is_dir a below rest)
    after_entry-Ends true a below rest deeper more = after_dir-Ends a below rest (deeper refl) more
    after_entry-Ends false a below rest deeper more = after_file-Ends a rest more

    visit-Ends :
        (o : Option Error) (fi : FileInfo) (below rest : W × R → Walked W R) (s : W × R)
        → (fi.is_dir ≡ true → (s : W × R) → Ends (below s))
        → ((s : W × R) → Ends (rest s))
        → Ends (visit ctx fn o fi below rest s)
    visit-Ends (some d) fi below rest s deeper more = λ x. cc
    visit-Ends none fi below rest s deeper more =
        after_entry-Ends fi.is_dir (fn fi.key fi none s) below rest deeper more

    walk_files-Ends :
        (walk : Bytes → W × R → Walked W R) (rank : Bytes → ℕ) (n : ℕ)
        → ((prefix : Bytes) (s : W × R) → rank prefix < n → Ends (walk prefix s))
        → (prefix : Bytes) (files : List FileInfo)
        → All (λ fi. fi.is_dir ≡ true → rank (sub_prefix prefix fi.key) < n) files
        → (s : W × R) → Ends (walk_files ctx fn walk prefix files s)
    unfolding walk_files
    walk_files-Ends walk rank n deep prefix [] _ s = λ x. cc
    walk_files-Ends walk rank n deep prefix (fi ∷ files) (lower, h) s =
        visit-Ends (ctx s.0) fi (walk (sub_prefix prefix fi.key))
          (walk_files ctx fn walk prefix files) s
          (λ dir t. deep (sub_prefix prefix fi.key) t (lower dir))
          (walk_files-Ends walk rank n deep prefix files h)

    All-below :
        (rank : Bytes → ℕ) (prefix : Bytes) (n : ℕ) (files : List FileInfo)
        → rank prefix < suc n
        → All (λ fi. fi.is_dir ≡ true → rank (sub_prefix prefix fi.key) < rank prefix) files
        → All (λ fi. fi.is_dir ≡ true → rank (sub_prefix prefix fi.key) < n) files
    All-below rank prefix n [] lt _ = tt
    All-below rank prefix n (fi ∷ files) lt (lower, h) =
        (λ dir. let l = lower dir in omega arith, All-below rank prefix n files lt h)

    -- Where directories rank below their parents, fuel above the rank of the prefix is enough:
    -- the walk ends, whatever the callback and the context do.
    pub walk-Ends :
        (fsys : Fs W) (rank : Bytes → ℕ)
        → Ranked fsys rank
        → (fuel : ℕ) (prefix : Bytes) (s : W × R) → rank prefix < fuel
        → Ends (walk ctx fn fsys fuel prefix s)
    unfolding walk
    walk-Ends fsys rank ranked zero prefix s lt = absurd (omega arith)
    walk-Ends fsys rank ranked (suc fuel) prefix s lt =
        by_list (walk-Ends fsys rank ranked fuel) (fsys.list ctx prefix s.0) refl
      where
        by_list :
            ((p : Bytes) (t : W × R) → rank p < fuel → Ends (walk ctx fn fsys fuel p t))
            → (l : Result (List FileInfo) × W) → fsys.list ctx prefix s.0 ≡ l
            → Ends (after_list ctx fn (walk ctx fn fsys fuel) prefix s.1 l)
        by_list ih (err d, w) e = λ x. cc
        by_list ih (ok files, w) e =
            walk_files-Ends (walk ctx fn fsys fuel) rank fuel ih prefix files
              (All-below rank prefix fuel files lt (ranked prefix s.0 w files e)) (w, s.1)
