-- ===== src/Zip/Index.antt =====
-- The index of an archive: the last entry of a name wins.
use mathlib.Core.List.{foldl}
use vire_fs.Base.{
  Bool, false, not, ◌&&◌, Option, none, some, List, [], ◌∷◌, if◌then◌else◌, Bool-cases, inl, inr,
  ◌≡◌, refl, ◌∙◌, ap,
}
use vire_fs.Bytes.{Bytes, equal, is_empty}
use vire_fs.Dict.{lookup, lookup-insert}
use vire_fs.Errors.{Result, ok, err}
use vire_fs.Key.{clean_key}
use vire_fs.Zip.{ZipFile, Index, index_as, index_file, build_index}

abbrev pub or_else : {A : Type 0} → Option A → Option A → Option A
or_else (some a) o = some a
or_else none o = o

or_else_assoc : {A : Type 0} (a b c : Option A) → or_else a (or_else b c) ≡ or_else (or_else a b) c
or_else_assoc (some a) b c = refl
or_else_assoc none b c = refl

or_else-none : {A : Type 0} (a : Option A) → or_else a none ≡ a
or_else-none (some a) = refl
or_else-none none = refl

-- An entry whose name is cleaned to a key that is not empty is named by that key.
abbrev pub is_named : Bytes → Result Bytes → Bool
is_named k (err e) = false
is_named k (ok key) = not (is_empty key) && equal k key

abbrev pub last_named : {W : Type 0} → Bytes → List (ZipFile W) → Option (ZipFile W)
last_named k [] = none
last_named k (f ∷ files) =
    or_else (last_named k files) (if is_named k (clean_key f.name) then some f else none)

module _ {W : Type 0} (k : Bytes) where
  lookup-index_as :
      (r : Result Bytes) (f : ZipFile W) (idx : Index W)
      → lookup k (index_as r f idx) ≡ or_else (if is_named k r then some f else none) (lookup k idx)
  lookup-index_as (err e) f idx = refl
  lookup-index_as (ok []) f idx = refl
  lookup-index_as (ok (c ∷ key)) f idx = elim (Bool-cases (equal k (c ∷ key))) [
    | inl same ↦ rw (lookup-insert (c ∷ key) k f idx, same) refl
    | inr other ↦ rw (lookup-insert (c ∷ key) k f idx, other) refl
  ]

  lookup-foldl :
      (files : List (ZipFile W)) (idx : Index W)
      → lookup k (foldl index_file idx files) ≡ or_else (last_named k files) (lookup k idx)
  lookup-foldl [] idx = refl
  lookup-foldl (f ∷ files) idx =
      lookup-foldl files (index_file idx f)
      ∙ ap (or_else (last_named k files)) (lookup-index_as (clean_key f.name) f idx)
      ∙ or_else_assoc (last_named k files) _ _

  -- The index has at each key the last entry of the archive whose name is cleaned to that key,
  -- and nothing at the empty key.
  pub lookup-build_index :
      (files : List (ZipFile W)) → lookup k (build_index files) ≡ last_named k files
  unfolding build_index lookup
  lookup-build_index files = lookup-foldl files [] ∙ or_else-none (last_named k files)
