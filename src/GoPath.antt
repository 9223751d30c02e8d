-- ===== src/GoPath.antt =====
-- The functions of package `path` that the sources call, on segments between slashes.
pub mod Laws
pub mod Ext
pub mod Names
use mathlib.Core.List.{foldl}
use vire_fs.Base.{
  ℕ, Bool, true, false, ◌&&◌, ◌||◌, not, List, [], ◌∷◌, ◌++◌, reverse, ◌==◌, if◌then◌else◌,
}
use vire_fs.Bytes.{Bytes, slash, dot, equal, split, join, codes}

abbrev pub cur_dir : Bytes
cur_dir = dot ∷ []

abbrev pub parent_dir : Bytes
parent_dir = dot ∷ dot ∷ []

-- `..`: drops the segment on top, unless that is a `..` itself; a rooted path stays at its root.
abbrev climb : Bool → List Bytes → List Bytes
climb rooted [] = if rooted then [] else parent_dir ∷ []
climb rooted (top ∷ stack) = if equal top parent_dir then parent_dir ∷ top ∷ stack else stack

-- One segment of the input; the output is a stack with its last segment on top.
abbrev pub clean_step : Bool → List Bytes → Bytes → List Bytes
clean_step rooted stack s =
    if equal s [] || equal s cur_dir
    then stack
    else if equal s parent_dir
    then climb rooted stack
    else s ∷ stack

abbrev pub clean_segments : Bool → List Bytes → List Bytes → List Bytes
clean_segments rooted stack [] = stack
clean_segments rooted stack (s ∷ rest) = clean_segments rooted (clean_step rooted stack s) rest

abbrev pub is_rooted : Bytes → Bool
is_rooted [] = false
is_rooted (c ∷ s) = c == slash

abbrev pub or_dot : Bytes → Bytes
or_dot [] = cur_dir
or_dot (c ∷ s) = c ∷ s

-- `path.Clean(p)`
unfoldable pub clean : Bytes → Bytes
unfolding equal
clean p = or_dot (
    (if is_rooted p then slash ∷ [] else [])
    ++ join (reverse (clean_segments (is_rooted p) [] (split p))))

-- `path.Join(a, b)`: empty elements are ignored, and the result is cleaned.
unfoldable pub join_path : Bytes → Bytes → Bytes
unfolding clean
join_path [] [] = []
join_path [] (d ∷ b) = clean (d ∷ b)
join_path (c ∷ a) [] = clean (c ∷ a)
join_path (c ∷ a) (d ∷ b) = clean ((c ∷ a) ++ (slash ∷ d ∷ b))

-- `path.Ext(p)`: from the last dot of the last segment.
ext_from : Bytes → Bytes → Bytes
ext_from found [] = found
ext_from found (c ∷ p) = ext_from (if c == dot then c ∷ p else if c == slash then [] else found) p

unfoldable pub ext : Bytes → Bytes
unfolding ext_from
ext p = ext_from [] p

abbrev is_nil : Bytes → Bool
is_nil [] = true
is_nil (c ∷ p) = false

-- Up to the last slash, with it.
abbrev pub dir_part : Bytes → Bytes
dir_part [] = []
dir_part (c ∷ p) =
    let rest = dir_part p in
    if is_nil rest then (if c == slash then slash ∷ [] else []) else c ∷ rest

-- `filepath.Dir(p)`
unfoldable pub dir : Bytes → Bytes
unfolding clean
dir p = clean (dir_part p)
