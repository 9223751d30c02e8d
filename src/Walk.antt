-- ===== src/Walk.antt =====
-- walk.go: `Walk`, which goes by List alone. Its depth is that of the store's directories, so the
-- recursion takes fuel; Walk/Fuel.antt is about how much is enough.
pub mod Fuel
pub mod Invariant
pub mod Preorder
pub mod Tree
pub mod Visits
use vire_fs.Base.{
  ℕ, zero, suc, Bool, true, false, not, ◌&&◌, Option, none, some, List, [], ◌∷◌, if◌then◌else◌,
  length, drop, ltb, ◌==◌,
}
use vire_fs.Bytes.{Bytes, slash, equal, has_prefix}
use vire_fs.GoPath.{is_rooted, join_path}
use vire_fs.Errors.{Error, skip_dir, errors_is, Result, ok, err}
use vire_fs.Effect.{Action, Context}
use vire_fs.Fs.{Fs, FileInfo, no_info}

-- The callback sees the world and has a state `R` of its own, the variables that it captures.
abbrev pub WalkFunc : Type 0 → Type 0 → Type 0
WalkFunc W R = Bytes → FileInfo → Option Error → W × R → Option Error × (W × R)

pub data WalkEnd : Type 0 where
  returned : Option Error → WalkEnd
  exhausted : WalkEnd

abbrev pub Walked : Type 0 → Type 0 → Type 0
Walked W R = WalkEnd × (W × R)

-- `key` is longer than `prefix` and goes on with a slash.
unfoldable pub has_path_prefix : Bytes → Bytes → Bool
unfolding equal
has_path_prefix key prefix =
    if equal prefix []
    then true
    else ltb (length prefix) (length key)
      && has_prefix key prefix
      && is_rooted (drop (length prefix) key)

-- Where Walk goes on below the directory `key` that List gave for `prefix`.
unfoldable pub sub_prefix : Bytes → Bytes → Bytes
unfolding equal has_path_prefix
sub_prefix prefix key =
    if not (equal prefix []) && not (has_path_prefix key prefix) then join_path prefix key else key

module _ {W R : Type 0} where
  -- `if err != nil { return err }` after a part of the walk.
  abbrev pub and_then : Walked W R → (W × R → Walked W R) → Walked W R
  and_then (returned none, s) rest = rest s
  and_then (returned (some e), s) rest = (returned (some e), s)
  and_then (exhausted, s) rest = (exhausted, s)

  -- After the callback on a directory: below it, or past it.
  abbrev pub after_dir :
      Option Error × (W × R) → (W × R → Walked W R) → (W × R → Walked W R) → Walked W R
  after_dir (none, s) below rest = and_then (below s) rest
  after_dir (some e, s) below rest = if errors_is e skip_dir then rest s else (returned (some e), s)

  -- After the callback on a file.
  abbrev pub after_file : Option Error × (W × R) → (W × R → Walked W R) → Walked W R
  after_file (none, s) rest = rest s
  after_file (some e, s) rest = (returned (some e), s)

  abbrev pub after_entry :
      (is_dir : Bool)
      → Option Error × (W × R)
      → (W × R → Walked W R)
      → (W × R → Walked W R)
      → Walked W R
  after_entry true answer below rest = after_dir answer below rest
  after_entry false answer below rest = after_file answer rest

  module _ (ctx : Context W) (fn : WalkFunc W R) where
    abbrev pub visit :
        Option Error → FileInfo → (W × R → Walked W R) → (W × R → Walked W R) → W × R → Walked W R
    visit (some e) fi below rest s = (returned (some e), s)
    visit none fi below rest s = after_entry fi.is_dir (fn fi.key fi none s) below rest

    -- The loop over the entries of one directory; `walk` is the recursive call.
    walk_files : (Bytes → W × R → Walked W R) → Bytes → List FileInfo → W × R → Walked W R
    walk_files walk prefix [] s = (returned none, s)
    walk_files walk prefix (fi ∷ files) s =
        visit (ctx s.0) fi (walk (sub_prefix prefix fi.key)) (walk_files walk prefix files) s

    abbrev after_list :
        (Bytes → W × R → Walked W R) → Bytes → R → Result (List FileInfo) × W → Walked W R
    after_list walk prefix r (ok files, w) = walk_files walk prefix files (w, r)
    after_list walk prefix r (err e, w) =
        let (e', s) = fn prefix no_info (some e) (w, r) in (returned e', s)

    unfoldable pub walk : Fs W → ℕ → Bytes → W × R → Walked W R
    unfolding walk_files
    walk fsys zero prefix s = (exhausted, s)
    walk fsys (suc fuel) prefix s =
        after_list (walk fsys fuel) prefix s.1 (fsys.list ctx prefix s.0)
