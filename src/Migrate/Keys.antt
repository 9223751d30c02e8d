-- ===== src/Migrate/Keys.antt =====
-- Where Migrate puts a file of the source.
use vire_fs.Base.{true, none, List, [], ◌∷◌, ◌++◌, All, drop-append, ◌≡◌, ◌≢◌, refl, ap, ◌∙◌, arith}
use vire_fs.Bytes.{Bytes, slash, equal, equal_ne, has_prefix, trim_prefix, join}
use vire_fs.Bytes.Segments.{join-ne-nil}
use vire_fs.GoPath.Names.{join-append, join_path-join}
use vire_fs.GoPath.Laws.{IsName}
use vire_fs.Migrate.{strip_prefix, destination_key}

has_prefix-append_self : (p s : Bytes) → has_prefix (p ++ s) p ≡ true
has_prefix-append_self [] s = refl
has_prefix-append_self (c ∷ p) s = ground (arith, has_prefix-append_self p s)

trim_prefix-append : (p s : Bytes) → trim_prefix (p ++ s) p ≡ s
unfolding trim_prefix
trim_prefix-append p s = rw (has_prefix-append_self p s) (drop-append p s)

-- A key below a prefix loses the prefix and the slash behind it.
strip_prefix-append :
    (prefix rel : Bytes) → prefix ≢ [] → strip_prefix (prefix ++ slash ∷ rel) prefix ≡ rel
unfolding strip_prefix
strip_prefix-append prefix rel ne =
    rw (equal_ne prefix [] ne, trim_prefix-append prefix (slash ∷ rel))
      (trim_prefix-append (slash ∷ []) rel)

strip_prefix-join :
    (src rel : List Bytes) (t : Bytes)
    → All IsName src
    → strip_prefix (join (src ++ t ∷ rel)) (join src) ≡ join (t ∷ rel)
strip_prefix-join [] rel t _ = unfold strip_prefix equal in refl
strip_prefix-join (s ∷ src) rel t h =
    ap (λ k. strip_prefix k (join (s ∷ src))) (join-append s t src rel)
    ∙ strip_prefix-append (join (s ∷ src)) (join (t ∷ rel)) (join-ne-nil s src h.0.not_empty)

-- With no key function, the names of a file below the source prefix are appended to those of the
-- destination prefix. All prefixes and keys are in normal form here.
destination_key-join :
    (src dst rel : List Bytes) (t : Bytes)
    → All IsName src
    → All IsName dst
    → All IsName (t ∷ rel)
    → destination_key none (join src) (join dst) (join (src ++ t ∷ rel)) ≡ join (dst ++ t ∷ rel)
unfolding destination_key
destination_key-join src [] rel t h _ n = strip_prefix-join src rel t h
destination_key-join src (d ∷ dst) rel t h k n =
    rw
      (
        equal_ne (join (d ∷ dst)) [] (join-ne-nil d dst k.0.not_empty),
        strip_prefix-join src rel t h,
      )
      (join_path-join d t dst rel k n)
