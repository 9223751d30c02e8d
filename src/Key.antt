-- ===== src/Key.antt =====
-- key.go: `CleanKey`.
pub mod Resolve
pub mod Trim
pub mod Traversal
pub mod Laws
use vire_fs.Base.{Bool, true, ◌||◌, [], ◌∷◌, if◌then◌else◌}
use vire_fs.Bytes.{Bytes, slash, dot, equal, has_prefix, has_suffix, contains, trim}
use vire_fs.GoPath.{clean, cur_dir, parent_dir}
use vire_fs.Errors.{Error, sentinel, invalid_key, wrap, Result, ok, err}

-- The last test of `CleanKey`.
abbrev pub is_traversal : Bytes → Bool
is_traversal cleaned =
    has_prefix cleaned parent_dir
    || contains cleaned (slash ∷ dot ∷ dot ∷ slash ∷ [])
    || has_suffix cleaned (slash ∷ dot ∷ dot ∷ [])

abbrev pub traversal_error : Bytes → Error
traversal_error raw = wrap "%w: path traversal not allowed: %q" (raw ∷ []) (sentinel invalid_key)

unfoldable pub clean_key : Bytes → Result Bytes
unfolding clean equal
clean_key raw =
    if equal raw []
    then ok []
    else let raw' = trim raw in
      if equal raw' []
      then ok []
      else let cleaned = clean raw' in
        if equal cleaned cur_dir
        then ok []
        else if is_traversal cleaned
        then err (traversal_error raw')
        else ok cleaned
