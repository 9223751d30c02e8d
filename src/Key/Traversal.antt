-- ===== src/Key/Traversal.antt =====
-- When the last test of `CleanKey` fires: it looks for `..` at the front, between slashes and at
-- the end of the cleaned path.
use vire_fs.Base.{true, false, List, [], ◌∷◌, ◌++◌, All, ◌≡◌, refl, sym, ◌∙◌, ap, ◌≢◌, arith}
use mathlib.Core.List
use vire_fs.Bytes.{
  Bytes, slash, dot, equal, equal_iff, has_prefix, has_suffix, contains, split, join, before_slash,
  later_segments,
}
use vire_fs.Bytes.Segments.{NoSlash, tail_join, join-cons, split-join, before_slash-append}
use vire_fs.GoPath.{parent_dir, cur_dir, or_dot}
use vire_fs.GoPath.Laws.{IsName}
use vire_fs.Key.{is_traversal}

-- `..` as a first segment, seen on the bytes.
before_slash-parent :
    (s : Bytes) → has_prefix s (dot ∷ dot ∷ slash ∷ []) ≡ true → before_slash s ≡ parent_dir
before_slash-parent [] h = cc
before_slash-parent (a ∷ []) h = ground arith
before_slash-parent (a ∷ b ∷ []) h = ground arith
before_slash-parent (a ∷ b ∷ c ∷ s) h = ground arith

contains_inner :
    (s : Bytes)
    → All (λ t. t ≢ parent_dir) (later_segments s)
    → contains s (slash ∷ dot ∷ dot ∷ slash ∷ []) ≡ false
contains_inner [] _ = refl
contains_inner (c ∷ s) h = ground (arith, contains_inner s, before_slash-parent s)

has_suffix_inner :
    (s : Bytes)
    → All (λ t. t ≢ parent_dir) (later_segments s)
    → has_suffix s (slash ∷ dot ∷ dot ∷ []) ≡ false
unfolding equal
has_suffix_inner [] _ = refl
has_suffix_inner (c ∷ s) h = ground (arith, has_suffix_inner s, equal_iff s parent_dir)

has_prefix-append :
    (s : Bytes) (r : List Bytes)
    → s ≢ []
    → has_prefix (s ++ tail_join r) parent_dir ≡ has_prefix s parent_dir
has_prefix-append [] r h = absurd (h refl)
has_prefix-append (a ∷ []) [] h = refl
has_prefix-append (a ∷ []) (t ∷ r) h = ground arith
has_prefix-append (a ∷ b ∷ s) r h = refl

All-IsName-NoSlash : (segs : List Bytes) → All IsName segs → All NoSlash segs
All-IsName-NoSlash [] _ = tt
All-IsName-NoSlash (s ∷ segs) (n, h) = (n.no_slash, All-IsName-NoSlash segs h)

All-IsName-NoParent : (segs : List Bytes) → All IsName segs → All (λ t. t ≢ parent_dir) segs
All-IsName-NoParent [] _ = tt
All-IsName-NoParent (s ∷ segs) (n, h) = (n.not_parent, All-IsName-NoParent segs h)

pub split-join_of_IsName :
    (s : Bytes) (segs : List Bytes) → All IsName (s ∷ segs) → split (join (s ∷ segs)) ≡ s ∷ segs
split-join_of_IsName s segs h = split-join s segs (All-IsName-NoSlash (s ∷ segs) h)

later_segments-join :
    (s : Bytes) (segs : List Bytes)
    → All IsName (s ∷ segs)
    → later_segments (join (s ∷ segs)) ≡ segs
later_segments-join s segs h = ap List.tail (split-join_of_IsName s segs h)

pub has_prefix-join :
    (s : Bytes) (segs : List Bytes)
    → All IsName (s ∷ segs)
    → has_prefix (join (s ∷ segs)) parent_dir ≡ has_prefix s parent_dir
has_prefix-join s segs h = rw (join-cons s segs) (has_prefix-append s segs h.0.not_empty)

-- On a path of names only the test at the front can fire.
pub is_traversal-join :
    (s : Bytes) (segs : List Bytes)
    → All IsName (s ∷ segs)
    → is_traversal (join (s ∷ segs)) ≡ has_prefix s parent_dir
is_traversal-join s segs h =
    let inner : All (λ t. t ≢ parent_dir) (later_segments (join (s ∷ segs))) =
      rw (later_segments-join s segs h) (All-IsName-NoParent segs h.1) in
    rw
      (
        contains_inner (join (s ∷ segs)) inner,
        has_suffix_inner (join (s ∷ segs)) inner,
        has_prefix-join s segs h,
      )
      (ground arith)

-- A path that climbs is refused.
is_traversal_of_climb : (segs : List Bytes) → is_traversal (join (parent_dir ∷ segs)) ≡ true
is_traversal_of_climb [] = refl
is_traversal_of_climb (s ∷ segs) = refl

-- A path of names is itself after `path.Clean`'s last step, and is not `.`.
pub or_dot-join :
    (s : Bytes) (segs : List Bytes) → s ≢ [] → or_dot (join (s ∷ segs)) ≡ join (s ∷ segs)
or_dot-join [] segs h = absurd (h refl)
or_dot-join (c ∷ s) [] h = refl
or_dot-join (c ∷ s) (t ∷ segs) h = refl

pub join-ne-cur_dir :
    (s : Bytes) (segs : List Bytes) → All IsName (s ∷ segs) → join (s ∷ segs) ≢ cur_dir
join-ne-cur_dir s segs h e =
    h.0.not_cur
      (sym (before_slash-append s segs h.0.no_slash) ∙ ap before_slash (sym (join-cons s segs) ∙ e))
