-- ===== src/Walk/Visits.antt =====
-- Walk over a store whose directories form a tree, while the callback changes the world.
use vire_fs.Base.{
  zero, suc, ◌<◌, ◌≤◌, ℕ, true, false, none, some, List, ◌∷◌, ◌++◌, Option, ◌≡◌, ◌≢◌, refl, sym,
  arith, subst,
}
use vire_fs.Bytes.{Bytes}
use vire_fs.Errors.{Error, skip_dir, errors_is, Result, ok, err}
use vire_fs.Effect.{Context}
use vire_fs.Fs.{Fs, FileInfo, no_info}
use vire_fs.Walk.{
  WalkFunc, returned, exhausted, Walked, sub_prefix, and_then, after_dir, after_file, after_entry,
  visit, walk_files, after_list, walk,
}
use vire_fs.Walk.Tree.{TreeBelow, Tree, Visits, stop, listing, call, Visits-append}
use vire_fs.Walk.Preorder.{Forest, nil, file, dir, entries, preorder, size}

module _ {W R : Type 0} (ctx : Context W) (fn : WalkFunc W R) (fsys : Fs W) where
  module _ (IsEntry : FileInfo → Type 0) (IsSteady : W → Type 0) where
    -- What the callback has to do: it passes errors of List on, never skips a directory, and keeps
    -- the world steady.
    pub record Carries : Type 0 where
      pub on_error :
          (prefix : Bytes) (e : Error) (s t : W × R) → fn prefix no_info (some e) s ≢ (none, t)
      pub on_dir :
          (fi : FileInfo) (e : Error) (s t : W × R)
          → fi.is_dir ≡ true
          → IsEntry fi
          → fn fi.key fi none s ≡ (some e, t)
          → errors_is e skip_dir ≡ false
      pub steady :
          (fi : FileInfo) (s t : W × R)
          → IsEntry fi
          → IsSteady s.0
          → fn fi.key fi none s ≡ (none, t)
          → IsSteady t.0

    -- A walk that ends, and that returns nil only after visits of these entries.
    abbrev pub Outcome : List FileInfo → W × R → Walked W R → Type 0
    Outcome fis s (returned none, t) = Visits ctx fn fsys fis s t × IsSteady t.0
    Outcome fis s (returned (some e), t) = Unit
    Outcome fis s (exhausted, t) = ⊥

    and_then-Outcome :
        (fis gis : List FileInfo) (s : W × R) (x : Walked W R) (rest : W × R → Walked W R)
        → Outcome fis s x
        → ((t : W × R) → IsSteady t.0 → Outcome gis t (rest t))
        → Outcome (fis ++ gis) s (and_then x rest)
    and_then-Outcome fis gis s (returned none, t) rest (v, st) more = prepend (rest t) (more t st)
      where
        prepend : (y : Walked W R) → Outcome gis t y → Outcome (fis ++ gis) s y
        prepend (returned none, u) (v', st') = (Visits-append ctx fn fsys v v', st')
        prepend (returned (some e), u) _ = tt
        prepend (exhausted, u) h = h
    and_then-Outcome fis gis s (returned (some e), t) rest h more = tt
    and_then-Outcome fis gis s (exhausted, t) rest h more = h

    Outcome-call :
        (fis : List FileInfo) (s t : W × R) (fi : FileInfo) (x : Walked W R)
        → fn fi.key fi none s ≡ (none, t)
        → Outcome fis t x
        → Outcome (fi ∷ fis) s x
    Outcome-call fis s t fi (returned none, u) e (v, st) = (call fi e v, st)
    Outcome-call fis s t fi (returned (some d), u) e h = tt
    Outcome-call fis s t fi (exhausted, u) e h = h

    Outcome-listing :
        (fis files : List FileInfo) (w v : W) (r : R) (prefix : Bytes) (x : Walked W R)
        → fsys.list ctx prefix w ≡ (ok files, v)
        → Outcome fis (v, r) x
        → Outcome fis (w, r) x
    Outcome-listing fis files w v r prefix (returned none, u) e (h, st) = (listing prefix e h, st)
    Outcome-listing fis files w v r prefix (returned (some d), u) e h = tt
    Outcome-listing fis files w v r prefix (exhausted, u) e h = h

    module _ (carries : Carries) where
      after_file-Outcome :
          (fis : List FileInfo) (fi : FileInfo) (s : W × R) (a : Option Error × (W × R))
          (rest : W × R → Walked W R)
          → fn fi.key fi none s ≡ a
          → IsEntry fi
          → IsSteady s.0
          → ((t : W × R) → IsSteady t.0 → Outcome fis t (rest t))
          → Outcome (fi ∷ fis) s (after_file a rest)
      after_file-Outcome fis fi s (none, t) rest e en st more =
          Outcome-call fis s t fi (rest t) e (more t (carries.steady fi s t en st e))
      after_file-Outcome fis fi s (some d, t) rest e en st more = tt

      after_dir-Outcome :
          (fis gis : List FileInfo) (fi : FileInfo) (s : W × R) (a : Option Error × (W × R))
          (below rest : W × R → Walked W R)
          → fi.is_dir ≡ true
          → fn fi.key fi none s ≡ a
          → IsEntry fi
          → IsSteady s.0
          → ((t : W × R) → IsSteady t.0 → Outcome fis t (below t))
          → ((t : W × R) → IsSteady t.0 → Outcome gis t (rest t))
          → Outcome (fi ∷ (fis ++ gis)) s (after_dir a below rest)
      after_dir-Outcome fis gis fi s (none, t) below rest is_dir e en st deep more =
          Outcome-call (fis ++ gis) s t fi (and_then (below t) rest) e (
            and_then-Outcome fis gis t (below t) rest (deep t (carries.steady fi s t en st e)) more)
      after_dir-Outcome fis gis fi s (some d, t) below rest is_dir e en st deep more =
          rw (carries.on_dir fi d s t is_dir en e) tt

      visit_file-Outcome :
          (o : Option Error) (fis : List FileInfo) (fi : FileInfo) (s : W × R)
          (below rest : W × R → Walked W R)
          → fi.is_dir ≡ false
          → IsEntry fi
          → IsSteady s.0
          → ((t : W × R) → IsSteady t.0 → Outcome fis t (rest t))
          → Outcome (fi ∷ fis) s (visit ctx fn o fi below rest s)
      visit_file-Outcome (some d) fis fi s below rest plain en st more = tt
      visit_file-Outcome none fis fi s below rest plain en st more =
          subst (λ b. Outcome (fi ∷ fis) s (after_entry b (fn fi.key fi none s) below rest))
            (sym plain) (after_file-Outcome fis fi s (fn fi.key fi none s) rest refl en st more)

      visit_dir-Outcome :
          (o : Option Error) (fis gis : List FileInfo) (fi : FileInfo) (s : W × R)
          (below rest : W × R → Walked W R)
          → fi.is_dir ≡ true
          → IsEntry fi
          → IsSteady s.0
          → ((t : W × R) → IsSteady t.0 → Outcome fis t (below t))
          → ((t : W × R) → IsSteady t.0 → Outcome gis t (rest t))
          → Outcome (fi ∷ (fis ++ gis)) s (visit ctx fn o fi below rest s)
      visit_dir-Outcome (some d) fis gis fi s below rest is_dir en st deep more = tt
      visit_dir-Outcome none fis gis fi s below rest is_dir en st deep more =
          subst
            (λ b. Outcome (fi ∷ (fis ++ gis)) s (after_entry b (fn fi.key fi none s) below rest))
            (sym is_dir)
            (after_dir-Outcome fis gis fi s (fn fi.key fi none s) below rest is_dir refl en st deep
              more)

      walk_files-Outcome :
          (walk : Bytes → W × R → Walked W R) (n : ℕ)
          → ((prefix : Bytes) (f : Forest) (s : W × R)
              → size f < n
              → IsSteady s.0
              → Tree ctx fsys IsEntry IsSteady prefix f
              → Outcome (preorder f) s (walk prefix s))
          → (prefix : Bytes) (f : Forest) (s : W × R) → size f ≤ n
          → IsSteady s.0
          → TreeBelow ctx fsys IsEntry IsSteady prefix f
          → Outcome (preorder f) s (walk_files ctx fn walk prefix (entries f) s)
      unfolding walk_files
      walk_files-Outcome walk n deep prefix nil s le st _ = (stop, st)
      walk_files-Outcome walk n deep prefix (file fi f) s le st (plain, en, h) =
          visit_file-Outcome (ctx s.0) (preorder f) fi s (walk (sub_prefix prefix fi.key))
            (walk_files ctx fn walk prefix (entries f)) plain en st
            (λ t st'. walk_files-Outcome walk n deep prefix f t le st' h)
      walk_files-Outcome walk n deep prefix (dir fi sub f) s le st (is_dir, en, below, h) =
          visit_dir-Outcome (ctx s.0) (preorder sub) (preorder f) fi s
            (walk (sub_prefix prefix fi.key)) (walk_files ctx fn walk prefix (entries f)) is_dir en
            st (λ t st'. deep (sub_prefix prefix fi.key) sub t (omega arith) st' below)
            (λ t st'. walk_files-Outcome walk n deep prefix f t (omega arith) st' h)

      -- On a store whose directories form a tree that the callback leaves as it is, Walk with fuel
      -- above the number of all directories of the tree ends; if it returns nil, the callback was
      -- called on every entry once, each directory before what is below it, and answered nil each
      -- time. The callback passes errors of List on and never answers ErrSkipDir at a directory.
      pub walk-Outcome :
          (fuel : ℕ) (prefix : Bytes) (f : Forest) (s : W × R)
          → size f < fuel
          → IsSteady s.0
          → Tree ctx fsys IsEntry IsSteady prefix f
          → Outcome (preorder f) s (walk ctx fn fsys fuel prefix s)
      unfolding walk
      walk-Outcome zero prefix f s lt st tree = absurd (omega arith)
      walk-Outcome (suc fuel) prefix f (w, r) lt st (lists, below) =
          by_list (fsys.list ctx prefix w) refl (walk-Outcome fuel)
        where
          by_list :
              (l : Result (List FileInfo) × W)
              → fsys.list ctx prefix w ≡ l
              → ((p : Bytes) (g : Forest) (s : W × R)
                  → size g < fuel
                  → IsSteady s.0
                  → Tree ctx fsys IsEntry IsSteady p g
                  → Outcome (preorder g) s (walk ctx fn fsys fuel p s))
              → Outcome (preorder f) (w, r) (after_list ctx fn (walk ctx fn fsys fuel) prefix r l)
          by_list (ok files, v) e deep =
              let (same, st') = lists w v files st e in
              Outcome-listing (preorder f) files w v r prefix
                (walk_files ctx fn (walk ctx fn fsys fuel) prefix files (v, r)) e
                (rw same (
                  walk_files-Outcome (walk ctx fn fsys fuel) fuel deep prefix f (v, r) (omega arith)
                    st' below))
          by_list (err d, v) e deep = by_answer (fn prefix no_info (some d) (v, r)) refl
            where
              by_answer :
                  (a : Option Error × (W × R))
                  → fn prefix no_info (some d) (v, r) ≡ a
                  → Outcome (preorder f) (w, r) (returned a.0, a.1)
              by_answer (none, t) h = absurd (carries.on_error prefix d (v, r) t h)
              by_answer (some d', t) h = tt
