-- ===== src/Local/Paths.antt =====
-- Where the keys of a store lie on the disk.
use vire_fs.Base.{
  true, none, List, [], ◌∷◌, ◌++◌, All, append-nil, All-append, ◌≡◌, refl, sym, ap, ◌∙◌, subst,
  arith, reverse, reverse-reverse,
}
use vire_fs.Bytes.{Bytes, slash, equal, has_prefix, has_prefix-append, split, join}
use vire_fs.Bytes.Segments.{split-join, join-ne-nil}
use vire_fs.GoPath.{clean, clean_segments, join_path}
use vire_fs.GoPath.Laws.{IsName, clean_segments_of_IsName}
use vire_fs.GoPath.Names.{All-IsName-NoSlash, join-append, join_path_of_ne}
use vire_fs.Errors.{ok}
use vire_fs.Key.{clean_key}
use vire_fs.Local.{Os, LocalFs, abs, locate, full_path}

-- The absolute path that goes through the given names.
abbrev pub path_of : List Bytes → Bytes
path_of names = slash ∷ join names

clean_rooted :
    (p : Bytes) → clean (slash ∷ p) ≡ slash ∷ join (reverse (clean_segments true [] (split p)))
unfolding clean
clean_rooted p = refl

clean_segments-join :
    (names : List Bytes)
    → All IsName names
    → join (reverse (clean_segments true [] (split (join names)))) ≡ join names
unfolding equal
clean_segments-join [] h = refl
clean_segments-join (s ∷ names) h =
    ap (λ l. join (reverse (clean_segments true [] l)))
      (split-join s names (All-IsName-NoSlash (s ∷ names) h))
    ∙ ap (λ l. join (reverse l)) (clean_segments_of_IsName true [] (s ∷ names) h)
    ∙ ap (λ l. join (reverse l)) (append-nil (reverse (s ∷ names)))
    ∙ ap join (reverse-reverse (s ∷ names))

clean-path_of : (names : List Bytes) → All IsName names → clean (path_of names) ≡ path_of names
clean-path_of names h = clean_rooted (join names) ∙ ap (◌∷◌ slash) (clean_segments-join names h)

-- Names joined to an absolute path.
pub join_path-path_of :
    (root names : List Bytes)
    → All IsName root
    → All IsName names
    → join_path (path_of root) (join names) ≡ path_of (root ++ names)
unfolding join_path
join_path-path_of root [] h k = clean-path_of root h ∙ ap path_of (sym (append-nil root))
join_path-path_of [] (t ∷ names) h k =
    join_path_of_ne (path_of []) (join (t ∷ names)) (λ e. cc) (join-ne-nil t names k.0.not_empty)
    ∙ clean_rooted (slash ∷ join (t ∷ names))
    ∙ ap (◌∷◌ slash) (clean_segments-join (t ∷ names) k)
join_path-path_of (s ∷ root) (t ∷ names) h k =
    join_path_of_ne (path_of (s ∷ root)) (join (t ∷ names)) (λ e. cc)
      (join-ne-nil t names k.0.not_empty)
    ∙ ap (λ p. clean (slash ∷ p)) (sym (join-append s t root names))
    ∙ clean-path_of ((s ∷ root) ++ (t ∷ names)) (All-append IsName (s ∷ root) (t ∷ names) h k)

has_prefix-path_of :
    (root names : List Bytes) → has_prefix (path_of (root ++ names)) (path_of root) ≡ true
has_prefix-path_of [] names = ground arith
has_prefix-path_of (s ∷ root) [] =
    let p = path_of (s ∷ root) in
    subst (λ r. has_prefix (path_of r) (path_of (s ∷ root)) ≡ true) (sym (append-nil (s ∷ root)))
      (subst (λ q. has_prefix q p ≡ true) (append-nil p) (has_prefix-append p []))
has_prefix-path_of (s ∷ root) (t ∷ names) =
    rw (join-append s t root names)
      (has_prefix-append (path_of (s ∷ root)) (slash ∷ join (t ∷ names)))

module _ {W : Type 0} (os : Os W) where
  locate-path_of :
      (root names : List Bytes) (w : W)
      → All IsName root
      → All IsName names
      → locate os (path_of root) none (join names) w ≡ (ok (path_of (root ++ names)), w)
  unfolding locate abs
  locate-path_of root names w h k = rw (
    join_path-path_of root names h k,
    clean-path_of (root ++ names) (All-append IsName root names h k),
    has_prefix-path_of root names,
  )

  -- Without a key function, a key lies at the end of the path that goes on from the root through
  -- the names of the clean key. The root is the absolute path of its own names.
  pub full_path-path_of :
      (l : LocalFs) (root names : List Bytes) (key : Bytes) (w : W)
      → All IsName root
      → All IsName names
      → l.root ≡ path_of root
      → l.key_func ≡ none
      → clean_key key ≡ ok (join names)
      → full_path os l key w ≡ (ok (path_of (root ++ names)), w)
  unfolding full_path
  full_path-path_of l root names key w h k at plain e = rw e (
      ap (λ r. locate os r l.key_func (join names) w) at
      ∙ ap (λ f. locate os (path_of root) f (join names) w) plain
      ∙ locate-path_of root names w h k)

pub join_injective :
    (xs ys : List Bytes) → All IsName xs → All IsName ys → join xs ≡ join ys → xs ≡ ys
join_injective [] [] h k e = refl
join_injective [] (t ∷ ys) h k e = absurd (join-ne-nil t ys k.0.not_empty (sym e))
join_injective (s ∷ xs) [] h k e = absurd (join-ne-nil s xs h.0.not_empty e)
join_injective (s ∷ xs) (t ∷ ys) h k e =
    sym (split-join s xs (All-IsName-NoSlash (s ∷ xs) h))
    ∙ ap split e
    ∙ split-join t ys (All-IsName-NoSlash (t ∷ ys) k)
