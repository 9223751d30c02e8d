-- ===== src/Tests/WalkTests.antt =====
-- Walks over a small tree.
use vire_fs.Base.{ℕ, Bool, Option, none, some, List, [], ◌∷◌, if◌then◌else◌, ◌≡◌, refl, arith}
use vire_fs.Bytes.{Bytes, codes, equal}
use vire_fs.Dict.{lookup}
use vire_fs.Errors.{Error, sentinel, skip_dir, Result, ok}
use vire_fs.Fs.{Fs, FileInfo}
use vire_fs.Walk.{WalkFunc, returned, sub_prefix, walk}
use vire_fs.Walk.Fuel.{Ends, Ranked, walk-Ends}
use vire_fs.Walk.Preorder.{Forest, nil, file, dir, Holds, IsVisitor, walk-preorder}
use vire_fs.Tests.Memory.{World, live, memory, file_at, dir_at}

abbrev a_dir : FileInfo
a_dir = dir_at (codes "a")

abbrev sub_dir : FileInfo
sub_dir = dir_at (codes "a/s")

abbrev x_file : FileInfo
x_file = file_at (codes "a/s/x")

abbrev y_file : FileInfo
y_file = file_at (codes "y")

abbrev forest : Forest
forest = dir a_dir (dir sub_dir (file x_file nil) nil) (file y_file nil)

abbrev store : Fs World
store =
    memory 1
      (([], a_dir ∷ y_file ∷ []) ∷ (codes "a", sub_dir ∷ []) ∷ (codes "a/s", x_file ∷ []) ∷ [])

holds : Holds live store [] [] forest
unfolding lookup equal sub_prefix
holds = (refl, (refl, (refl, (refl, (refl, (refl, tt)), tt)), (refl, tt)))

-- The state is the list of the keys seen, the last one first.
abbrev note : List Bytes → FileInfo → List Bytes
note seen fi = fi.key ∷ seen

abbrev skip_sub : FileInfo → Bool
skip_sub fi = equal fi.key (codes "a/s")

abbrev visit_all : Bool → Bool → Option Error
visit_all is_dir skip = if is_dir then (if skip then some (sentinel skip_dir) else none) else none

abbrev fn : WalkFunc World (List Bytes)
fn key info e (w, seen) = (visit_all info.is_dir (skip_sub info), (w, note seen info))

visitor : IsVisitor fn [] skip_sub note
visitor = record { on_file = λ fi r h. rw h; on_dir = λ fi r h. rw h }

walk-preorder_example :
    walk live fn store 5 [] ([], [])
    ≡ (returned none, ([], codes "y" ∷ codes "a/s" ∷ codes "a" ∷ []))
unfolding equal
walk-preorder_example =
    walk-preorder live fn store [] skip_sub note refl visitor 5 [] forest [] (omega arith) holds

-- One directory inside the root, and nothing in it.
abbrev flat : Fs World
flat = memory 1 (([], dir_at (codes "a") ∷ y_file ∷ []) ∷ [])

abbrev rank : Bytes → ℕ
rank [] = 1
rank (c ∷ p) = 0

ranked : Ranked live fn flat rank
unfolding lookup equal sub_prefix
ranked [] w w' files h = rw (← list_of h) ((λ d. omega arith), ((λ d. cc), tt))
  where
    list_of :
        ◌≡◌ {A = Result (List FileInfo) × World}
          (ok (dir_at (codes "a") ∷ y_file ∷ []), w)
          (ok files, w')
        → (dir_at (codes "a") ∷ y_file ∷ []) ≡ files
    list_of e = cc
ranked (c ∷ p) w w' files h = cc

walk-Ends_example : Ends (walk live fn flat 2 [] ([], []))
walk-Ends_example = walk-Ends live fn flat rank ranked 2 [] ([], []) (omega arith)
