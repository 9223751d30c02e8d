-- ===== src/GoPath/Names.antt =====
-- `path.Clean` and `path.Join` on paths of names.
use vire_fs.Base.{
  false, List, [], ◌∷◌, ◌++◌, reverse, reverse-reverse, All, All-append, ◌≡◌, ◌≢◌, refl, sym, ap,
  ◌∙◌, append-nil, append_assoc, arith,
}
use vire_fs.Bytes.{Bytes, slash, join}
use vire_fs.Bytes.Segments.{NoSlash, join-cons, split-join, join-ne-nil, tail_join}
use vire_fs.GoPath.{is_rooted, or_dot, clean, clean_segments, join_path}
use vire_fs.GoPath.Laws.{IsName, clean_segments_of_IsName}

pub All-IsName-NoSlash : (segs : List Bytes) → All IsName segs → All NoSlash segs
All-IsName-NoSlash [] _ = tt
All-IsName-NoSlash (s ∷ segs) (n, h) = (n.no_slash, All-IsName-NoSlash segs h)

-- A path of names is not empty, so that `path.Clean` does not make it `.`.
or_dot_of_ne : (p : Bytes) → p ≢ [] → or_dot p ≡ p
or_dot_of_ne [] h = absurd (h refl)
or_dot_of_ne (c ∷ p) h = refl

is_rooted-join : (s : Bytes) (segs : List Bytes) → IsName s → is_rooted (join (s ∷ segs)) ≡ false
is_rooted-join s segs n = rw (join-cons s segs) (first s (tail_join segs) n.not_empty n.no_slash)
  where
    first : (s t : Bytes) → s ≢ [] → NoSlash s → is_rooted (s ++ t) ≡ false
    first [] t ne p = absurd (ne refl)
    first (c ∷ s) t ne (p, _) = ground arith

-- Names joined by slashes are clean already.
clean-join :
    (s : Bytes) (segs : List Bytes)
    → All IsName (s ∷ segs)
    → clean (join (s ∷ segs)) ≡ join (s ∷ segs)
unfolding clean
clean-join s segs h = rw (is_rooted-join s segs h.0) (
    ap (λ l. or_dot (join (reverse (clean_segments false [] l))))
      (split-join s segs (All-IsName-NoSlash (s ∷ segs) h))
    ∙ ap (λ l. or_dot (join (reverse l))) (clean_segments_of_IsName false [] (s ∷ segs) h)
    ∙ ap (λ l. or_dot (join (reverse l))) (append-nil (reverse (s ∷ segs)))
    ∙ ap (λ l. or_dot (join l)) (reverse-reverse (s ∷ segs))
    ∙ or_dot_of_ne (join (s ∷ segs)) (join-ne-nil s segs h.0.not_empty))

pub join-append :
    (s t : Bytes) (xs ys : List Bytes)
    → join ((s ∷ xs) ++ (t ∷ ys)) ≡ join (s ∷ xs) ++ (slash ∷ join (t ∷ ys))
join-append s t [] ys = refl
join-append s t (x ∷ xs) ys =
    ap (λ r. s ++ (slash ∷ r)) (join-append x t xs ys) ∙ sym (append_assoc s _ _)

pub join_path_of_ne : (a b : Bytes) → a ≢ [] → b ≢ [] → join_path a b ≡ clean (a ++ (slash ∷ b))
unfolding join_path
join_path_of_ne [] b p q = absurd (p refl)
join_path_of_ne (c ∷ a) [] p q = absurd (q refl)
join_path_of_ne (c ∷ a) (d ∷ b) p q = refl

-- `path.Join` of names is the path of all the names.
pub join_path-join :
    (s t : Bytes) (xs ys : List Bytes)
    → All IsName (s ∷ xs)
    → All IsName (t ∷ ys)
    → join_path (join (s ∷ xs)) (join (t ∷ ys)) ≡ join ((s ∷ xs) ++ (t ∷ ys))
join_path-join s t xs ys h k =
    join_path_of_ne (join (s ∷ xs)) (join (t ∷ ys)) (join-ne-nil s xs h.0.not_empty)
      (join-ne-nil t ys k.0.not_empty)
    ∙ ap clean (sym (join-append s t xs ys))
    ∙ clean-join s (xs ++ (t ∷ ys)) (All-append IsName (s ∷ xs) (t ∷ ys) h k)
