-- ===== src/Walk/Tree.antt =====
-- A store whose directories form a tree while the world changes, and the visits to its entries.
use vire_fs.Base.{true, false, none, List, [], ◌∷◌, ◌++◌, ◌≡◌, All, All-append}
use vire_fs.Bytes.{Bytes}
use vire_fs.Errors.{ok}
use vire_fs.Effect.{Context}
use vire_fs.Fs.{Fs, FileInfo}
use vire_fs.Walk.{WalkFunc, sub_prefix}
use vire_fs.Walk.Preorder.{Forest, nil, file, dir, entries, preorder}

-- A store whose directories form a tree as long as the world satisfies `IsSteady`: what List
-- returns for a directory of the tree are its entries, which satisfy `IsEntry`.
module _ {W : Type 0} (ctx : Context W) (fsys : Fs W) (IsEntry : FileInfo → Type 0)
    (IsSteady : W → Type 0) where
  abbrev pub ListsAs : Bytes → Forest → Type 0
  ListsAs prefix f =
      (w v : W) (files : List FileInfo)
      → IsSteady w
      → fsys.list ctx prefix w ≡ (ok files, v)
      → (files ≡ entries f) × IsSteady v

  abbrev pub TreeBelow : Bytes → Forest → Type 0
  TreeBelow prefix nil = Unit
  TreeBelow prefix (file fi f) = (fi.is_dir ≡ false) × IsEntry fi × TreeBelow prefix f
  TreeBelow prefix (dir fi sub f) =
      (fi.is_dir ≡ true)
      × IsEntry fi
      × (ListsAs (sub_prefix prefix fi.key) sub × TreeBelow (sub_prefix prefix fi.key) sub)
      × TreeBelow prefix f

  abbrev pub Tree : Bytes → Forest → Type 0
  Tree prefix f = ListsAs prefix f × TreeBelow prefix f

  pub TreeBelow-All : (prefix : Bytes) (f : Forest) → TreeBelow prefix f → All IsEntry (preorder f)
  TreeBelow-All prefix nil _ = tt
  TreeBelow-All prefix (file fi f) (_, en, h) = (en, TreeBelow-All prefix f h)
  TreeBelow-All prefix (dir fi sub f) (_, en, (_, below), h) = (
    en,
    All-append IsEntry (preorder sub) (preorder f)
        (TreeBelow-All (sub_prefix prefix fi.key) sub below) (TreeBelow-All prefix f h),
  )

module _ {W R : Type 0} (ctx : Context W) (fn : WalkFunc W R) (fsys : Fs W) where
  -- The callback was called on these entries, in this order, and answered nil on each of them;
  -- between the calls directories were listed, and nothing else was done.
  pub data Visits : List FileInfo → W × R → W × R → Type 0 where
    stop : {s : W × R} → Visits [] s s
    listing :
        {fis files : List FileInfo} {w v : W} {r : R} {s : W × R} (prefix : Bytes)
        → fsys.list ctx prefix w ≡ (ok files, v)
        → Visits fis (v, r) s
        → Visits fis (w, r) s
    call :
        {fis : List FileInfo} {s t u : W × R} (fi : FileInfo)
        → fn fi.key fi none s ≡ (none, t)
        → Visits fis t u
        → Visits (fi ∷ fis) s u

  pub Visits-append :
      {fis gis : List FileInfo} {s t u : W × R}
      → Visits fis s t
      → Visits gis t u
      → Visits (fis ++ gis) s u
  Visits-append stop more = more
  Visits-append (listing prefix e v) more = listing prefix e (Visits-append v more)
  Visits-append (call fi e v) more = call fi e (Visits-append v more)
