-- ===== src/Bytes/Segments.antt =====
-- Splitting at slashes and joining again.
use vire_fs.Base.{
  List, [], ◌∷◌, ◌++◌, ◌==◌, All, Bool-cases, inl, inr, ◌≡◌, refl, sym, ◌∙◌, ap, ◌≢◌, append-nil,
  arith,
}
use vire_fs.Bytes.{Bytes, slash, split, join, before_slash, after_slash, later_segments}

abbrev pub NoSlash : Bytes → Type 0
NoSlash = All (λ c. c ≢ slash)

pub before_slash-NoSlash : (s : Bytes) → NoSlash (before_slash s)
before_slash-NoSlash [] = tt
before_slash-NoSlash (c ∷ s) = ground (arith, before_slash-NoSlash s)

later_segments-NoSlash : (s : Bytes) → All NoSlash (later_segments s)
later_segments-NoSlash [] = tt
later_segments-NoSlash (c ∷ s) = ground (arith, later_segments-NoSlash s, before_slash-NoSlash s)

pub split-NoSlash : (s : Bytes) → All NoSlash (split s)
split-NoSlash s = (before_slash-NoSlash s, later_segments-NoSlash s)

-- The join after a first segment.
abbrev pub tail_join : List Bytes → Bytes
tail_join [] = []
tail_join (t ∷ r) = slash ∷ join (t ∷ r)

pub join-cons : (s : Bytes) (r : List Bytes) → join (s ∷ r) ≡ s ++ tail_join r
join-cons s [] = sym (append-nil s)
join-cons s (t ∷ r) = refl

pub before_slash-append :
    (s : Bytes) (r : List Bytes) → NoSlash s → before_slash (s ++ tail_join r) ≡ s
before_slash-append [] [] _ = refl
before_slash-append [] (t ∷ r) _ = refl
before_slash-append (c ∷ s) r (p, h) = ground (arith, before_slash-append s r h)

later_segments-append :
    (s : Bytes) (r : List Bytes)
    → NoSlash s
    → later_segments (s ++ tail_join r) ≡ later_segments (tail_join r)
later_segments-append [] r _ = refl
later_segments-append (c ∷ s) r (p, h) = ground (arith, later_segments-append s r h)

before_slash_of_NoSlash : (s : Bytes) → NoSlash s → before_slash s ≡ s
before_slash_of_NoSlash [] _ = refl
before_slash_of_NoSlash (c ∷ s) (p, h) = ground (arith, before_slash_of_NoSlash s h)

later_segments_of_NoSlash : (s : Bytes) → NoSlash s → later_segments s ≡ []
later_segments_of_NoSlash [] _ = refl
later_segments_of_NoSlash (c ∷ s) (p, h) = ground (arith, later_segments_of_NoSlash s h)

pub split-join : (s : Bytes) (r : List Bytes) → All NoSlash (s ∷ r) → split (join (s ∷ r)) ≡ s ∷ r
split-join s [] (p, _) = rw (before_slash_of_NoSlash s p, later_segments_of_NoSlash s p)
split-join s (t ∷ r) (p, h) =
    rw (before_slash-append s (t ∷ r) p, later_segments-append s (t ∷ r) p)
      (ap (λ l. s ∷ l) (split-join t r h))

-- An absent slash leaves nothing behind it.
join-split : (s : Bytes) → join (split s) ≡ s
join-split [] = refl
join-split (c ∷ s) = elim (Bool-cases (c == slash)) [
  | inl h ↦ rw h (ground (arith, join-split s))
  | inr h ↦ rw h (
      join-cons (c ∷ before_slash s) (later_segments s)
      ∙ ap (◌∷◌ c) (sym (join-cons (before_slash s) (later_segments s)) ∙ join-split s))
]

after_slash-append :
    (s : Bytes) (r : List Bytes) → NoSlash s → after_slash (s ++ tail_join r) ≡ join r
after_slash-append [] [] _ = refl
after_slash-append [] (t ∷ r) _ = refl
after_slash-append (c ∷ s) r (p, h) = ground (arith, after_slash-append s r h)

pub before_slash-join : (s : Bytes) (r : List Bytes) → NoSlash s → before_slash (join (s ∷ r)) ≡ s
before_slash-join s r p = rw (join-cons s r, before_slash-append s r p)

pub after_slash-join :
    (s : Bytes) (r : List Bytes) → NoSlash s → after_slash (join (s ∷ r)) ≡ join r
after_slash-join s r p = rw (join-cons s r, after_slash-append s r p)

pub join-ne-nil : (s : Bytes) (r : List Bytes) → s ≢ [] → join (s ∷ r) ≢ []
join-ne-nil [] r h = absurd (h refl)
join-ne-nil (c ∷ s) [] h = cc
join-ne-nil (c ∷ s) (t ∷ r) h = cc
