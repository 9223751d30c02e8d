-- ===== src/Tests/SchemaTests.antt =====
-- Routes: the cases of schema_test.go, and the theorems at some of them.
use mathlib.Core.List.{Memᴰ}
use vire_fs.Base.{true, [], ◌∷◌, ◌++◌, ◌≡◌, refl, inr, arith}
use vire_fs.Bytes.{codes, dot, equal}
use vire_fs.GoPath.{ext}
use vire_fs.Schema.{Route, Schema, new_schema, route_by_ext, default_route, resolve}
use vire_fs.Schema.Extensions.{route_by_ext-match}

-- Only ASCII text is lowered here.
abbrev images : Route
images = route_by_ext (λ s. s) (codes "images/") (codes ".jpg" ∷ codes "png" ∷ [])

abbrev schema : Schema
schema = new_schema (images ∷ default_route (codes "other/") ∷ [])

cases :
    (resolve schema (codes "a/b.JPG") ≡ codes "images/a/b.JPG")
    × (resolve schema (codes "b.png") ≡ codes "images/b.png")
    × (resolve schema (codes "b.png/c") ≡ codes "other/b.png/c")
unfolding resolve new_schema route_by_ext default_route ext equal
cases = (refl, refl, refl)

route_by_ext-match_example :
    (route_by_ext (λ s. s) (codes "images/") (codes ".jpg" ∷ codes "png" ∷ [])).match
      (codes "a/b" ++ dot ∷ codes "PnG")
    ≡ true
route_by_ext-match_example =
    route_by_ext-match (λ s. s) (codes "images/") (codes ".jpg" ∷ codes "png" ∷ []) (codes "png")
      (codes "a/b") (codes "PnG") (codes "png") (Memᴰ.tail (Memᴰ.head refl)) (inr (refl, refl))
      (omega arith) refl refl refl
