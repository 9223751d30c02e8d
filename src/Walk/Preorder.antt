-- ===== src/Walk/Preorder.antt =====
-- Walk over a store that does not change, whose directories form a tree.
use mathlib.Core.List.{foldl, foldl-append}
use vire_fs.Base.{
  ℕ, zero, suc, ◌+◌, ◌<◌, ◌≤◌, Bool, true, false, none, some, List, [], ◌∷◌, ◌++◌, if◌then◌else◌,
  Bool-cases, inl, inr, ◌≡◌, refl, sym, ap, ◌∙◌, arith,
}
use vire_fs.Bytes.{Bytes}
use vire_fs.Errors.{sentinel, skip_dir, ok}
use vire_fs.Effect.{Context}
use vire_fs.Fs.{Fs, FileInfo}
use vire_fs.Walk.{
  WalkFunc, returned, Walked, sub_prefix, and_then, after_dir, after_file, after_entry, visit,
  walk_files, walk,
}

-- The entries of a directory, each directory with the entries below it.
pub data Forest : Type 0 where
  nil : Forest
  file : FileInfo → Forest → Forest
  dir : FileInfo → Forest → Forest → Forest

-- What List returns.
abbrev pub entries : Forest → List FileInfo
entries nil = []
entries (file fi f) = fi ∷ entries f
entries (dir fi sub f) = fi ∷ entries f

-- Every entry, a directory before what is below it.
abbrev pub preorder : Forest → List FileInfo
preorder nil = []
preorder (file fi f) = fi ∷ preorder f
preorder (dir fi sub f) = fi ∷ (preorder sub ++ preorder f)

-- The forest without what is below the directories that `skip` names.
abbrev pub prune : (FileInfo → Bool) → Forest → Forest
prune skip nil = nil
prune skip (file fi f) = file fi (prune skip f)
prune skip (dir fi sub f) =
    let below = prune skip sub in dir fi (if skip fi then nil else below) (prune skip f)

-- The number of directories, at all depths.
abbrev pub size : Forest → ℕ
size nil = 0
size (file fi f) = size f
size (dir fi sub f) = suc (size sub + size f)

module _ {W : Type 0} (ctx : Context W) (fsys : Fs W) (w : W) where
  -- In the world `w` the store lists these entries below the prefix, and listing changes nothing.
  abbrev pub Below : Bytes → Forest → Type 0
  Below prefix nil = Unit
  Below prefix (file fi f) = (fi.is_dir ≡ false) × Below prefix f
  Below prefix (dir fi sub f) =
      (fi.is_dir ≡ true)
      × ((fsys.list ctx (sub_prefix prefix fi.key) w ≡ (ok (entries sub), w))
          × Below (sub_prefix prefix fi.key) sub)
      × Below prefix f

  abbrev pub Holds : Bytes → Forest → Type 0
  Holds prefix f = (fsys.list ctx prefix w ≡ (ok (entries f), w)) × Below prefix f

-- A callback that leaves the world `w` alone, notes every entry in its own state, and answers
-- `ErrSkipDir` on the directories that `skip` names and on nothing else.
pub record IsVisitor {W R : Type 0} (fn : WalkFunc W R) (w : W) (skip : FileInfo → Bool)
    (note : R → FileInfo → R) : Type 0 where
  pub on_file :
      (fi : FileInfo) (r : R)
      → fi.is_dir ≡ false
      → fn fi.key fi none (w, r) ≡ (none, (w, note r fi))
  pub on_dir :
      (fi : FileInfo) (r : R)
      → fi.is_dir ≡ true
      → fn fi.key fi none (w, r)
        ≡ ((if skip fi then some (sentinel skip_dir) else none), (w, note r fi))

module _ {W R : Type 0} (ctx : Context W) (fn : WalkFunc W R) (fsys : Fs W) (w : W)
    (skip : FileInfo → Bool) (note : R → FileInfo → R) (alive : ctx w ≡ none)
    (visitor : IsVisitor fn w skip note) where
  -- The end of a walk that has noted these entries.
  abbrev pub noted : List FileInfo → R → Walked W R
  noted visited r = (returned none, (w, foldl note r visited))

  visit_file :
      (fi : FileInfo) (below rest : W × R → Walked W R) (r : R)
      → fi.is_dir ≡ false
      → visit ctx fn (ctx w) fi below rest (w, r) ≡ rest (w, note r fi)
  visit_file fi below rest r h =
      ap (λ o. visit ctx fn o fi below rest (w, r)) alive
      ∙ ap (λ b. after_entry b (fn fi.key fi none (w, r)) below rest) h
      ∙ ap (λ a. after_file a rest) (visitor.on_file fi r h)

  visit_dir :
      (fi : FileInfo) (below rest : W × R → Walked W R) (r : R)
      → fi.is_dir ≡ true
      → visit ctx fn (ctx w) fi below rest (w, r)
        ≡ (if skip fi then rest (w, note r fi) else and_then (below (w, note r fi)) rest)
  visit_dir fi below rest r h =
      ap (λ o. visit ctx fn o fi below rest (w, r)) alive
      ∙ ap (λ b. after_entry b (fn fi.key fi none (w, r)) below rest) h
      ∙ ap (λ a. after_dir a below rest) (visitor.on_dir fi r h)
      ∙ skips (skip fi)
    where
      skips :
          (b : Bool)
          → after_dir ((if b then some (sentinel skip_dir) else none), (w, note r fi)) below rest
            ≡ (if b then rest (w, note r fi) else and_then (below (w, note r fi)) rest)
      skips true = refl
      skips false = refl

  walk_files-noted :
      (walk : Bytes → W × R → Walked W R) (n : ℕ)
      → ((prefix : Bytes) (f : Forest) (r : R)
          → size f < n
          → Holds ctx fsys w prefix f
          → walk prefix (w, r) ≡ noted (preorder (prune skip f)) r)
      → (prefix : Bytes) (f : Forest) (r : R) → size f ≤ n
      → Below ctx fsys w prefix f
      → walk_files ctx fn walk prefix (entries f) (w, r) ≡ noted (preorder (prune skip f)) r
  unfolding walk_files
  walk_files-noted walk n deep prefix nil r le _ = refl
  walk_files-noted walk n deep prefix (file fi f) r le (plain, h) =
      visit_file fi (walk (sub_prefix prefix fi.key)) (walk_files ctx fn walk prefix (entries f)) r
        plain
      ∙ walk_files-noted walk n deep prefix f (note r fi) le h
  walk_files-noted walk n deep prefix (dir fi sub f) r le (is_dir, below, h) =
      visit_dir fi (walk (sub_prefix prefix fi.key)) (walk_files ctx fn walk prefix (entries f)) r
        is_dir
      ∙ elim (Bool-cases (skip fi)) [
        | inl pruned ↦ rw pruned (walk_files-noted walk n deep prefix f (note r fi) (omega arith) h)
        | inr kept ↦
            let r' = foldl note (note r fi) (preorder (prune skip sub)) in
            rw (kept, deep (sub_prefix prefix fi.key) sub (note r fi) (omega arith) below)
              (walk_files-noted walk n deep prefix f r' (omega arith) h
                ∙ ap (λ t. (returned none, (w, t)))
                    (sym (
                      foldl-append note (note r fi) (preorder (prune skip sub))
                        (preorder (prune skip f)))))
      ]

  -- On a store whose directories form a tree, Walk notes every entry once, each directory before
  -- what is below it, but nothing below a directory on which the callback answers `ErrSkipDir`.
  -- It returns no error.
  pub walk-preorder :
      (fuel : ℕ) (prefix : Bytes) (f : Forest) (r : R)
      → size f < fuel
      → Holds ctx fsys w prefix f
      → walk ctx fn fsys fuel prefix (w, r) ≡ noted (preorder (prune skip f)) r
  unfolding walk
  walk-preorder zero prefix f r lt h = absurd (omega arith)
  walk-preorder (suc fuel) prefix f r lt (listed, below) = rw listed (
      walk_files-noted (walk ctx fn fsys fuel) fuel (walk-preorder fuel) prefix f r (omega arith)
        below)
