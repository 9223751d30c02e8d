-- ===== src/GoPath/Ext.antt =====
-- `path.Ext` at the end of a path.
use vire_fs.Base.{[], ◌∷◌, ◌++◌, All, ◌≡◌, ◌≢◌, refl, arith}
use vire_fs.Bytes.{Bytes, dot, slash}
use vire_fs.GoPath.{ext_from, ext}

-- The bytes of an extension behind its dot.
abbrev pub IsExtBody : Bytes → Type 0
IsExtBody = All (λ c. (c ≢ dot) × (c ≢ slash))

ext_from_body : (found body : Bytes) → IsExtBody body → ext_from found body ≡ found
unfolding ext_from
ext_from_body found [] _ = refl
ext_from_body found (c ∷ body) ((p, q), h) = ground (arith, ext_from_body found body h)

ext_from-append :
    (stem body found : Bytes) → IsExtBody body → ext_from found (stem ++ dot ∷ body) ≡ dot ∷ body
unfolding ext_from
ext_from-append [] body found h = ext_from_body (dot ∷ body) body h
ext_from-append (c ∷ stem) body found h = ext_from-append stem body _ h

-- `path.Ext` finds an extension at the end of any path.
pub ext-append : (stem body : Bytes) → IsExtBody body → ext (stem ++ dot ∷ body) ≡ dot ∷ body
unfolding ext
ext-append stem body h = ext_from-append stem body [] h
