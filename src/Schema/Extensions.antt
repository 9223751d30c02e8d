-- ===== src/Schema/Extensions.antt =====
-- Routes by extension look at neither case nor the dot of a listed extension.
use vire_fs.Base.{true, false, List, [], ◌∷◌, ◌++◌, map, ◌≡◌, arith, inl, inr, ◌⊎◌}
use mathlib.Core.List.{Memᴰ}
use vire_fs.Bytes.{Bytes, dot, equal_refl, has_prefix}
use vire_fs.GoPath.Ext.{IsExtBody, ext-append}
use vire_fs.Schema.{lower_byte, is_ascii, listed, stored_ext, route_by_ext}

-- A listed extension, written with its dot or without.
abbrev pub Writes : Bytes → Bytes → Type 0
Writes e body = (e ≡ dot ∷ body) ⊎ ((e ≡ body) × (has_prefix body (dot ∷ []) ≡ false))

stored_ext_of_Writes :
    (unicode_lower : Bytes → Bytes) (e body : Bytes)
    → Writes e body
    → is_ascii body ≡ true
    → stored_ext unicode_lower e ≡ dot ∷ map lower_byte body
unfolding stored_ext
stored_ext_of_Writes u e body (inl same) a = rw same (rw a)
stored_ext_of_Writes u e body (inr (same, bare)) a = rw (same, bare) (rw a)

listed-map :
    (f : Bytes → Bytes) {e : Bytes} {exts : List Bytes} (s : Bytes)
    → Memᴰ e exts
    → s ≡ f e
    → listed s (map f exts) ≡ true
unfolding listed
listed-map f s (Memᴰ.head same) p = rw (p, same, equal_refl)
listed-map f s (Memᴰ.tail m) p = ground (arith, listed-map f s m p)

-- A route by extension matches every key that ends in a dot and a listed extension, in upper or
-- lower case, and whether or not the extension was listed with its dot. Both are ASCII text.
pub route_by_ext-match :
    (unicode_lower : Bytes → Bytes) (prefix : Bytes) (exts : List Bytes) (e stem body body' : Bytes)
    → Memᴰ e exts
    → Writes e body'
    → IsExtBody body
    → is_ascii body ≡ true
    → is_ascii body' ≡ true
    → map lower_byte body ≡ map lower_byte body'
    → (route_by_ext unicode_lower prefix exts).match (stem ++ dot ∷ body) ≡ true
unfolding route_by_ext
route_by_ext-match u prefix exts e stem body body' m writes h a a' same =
    listed-map (stored_ext u) _ m
      (rw (ext-append stem body h, a, stored_ext_of_Writes u e body' writes a', same))
