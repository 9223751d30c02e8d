-- ===== src/Key/Trim.antt =====
-- Slashes at the ends of a key do not change the place that it leads to.
use vire_fs.Base.{
  ℕ, false, ◌&&◌, List, [], ◌∷◌, if◌then◌else◌, ◌==◌, Bool-cases, ==_iff, Option-cases, inl, inr,
  ◌≡◌, refl, sym, ◌∙◌, ap, arith,
}
use vire_fs.Bytes.{
  Bytes, slash, equal, split, before_slash, later_segments, is_empty, trim, trim_left, trim_right,
}
use vire_fs.GoPath.{is_rooted}
use vire_fs.Key.Resolve.{resolve, enter, ◌>>=◌}

-- The segments that are not empty.
abbrev names : List Bytes → List Bytes
names [] = []
names (s ∷ rest) = let more = names rest in if is_empty s then more else s ∷ more

resolve-names : (stack segs : List Bytes) → resolve stack (names segs) ≡ resolve stack segs
unfolding resolve equal
resolve-names stack [] = refl
resolve-names stack ([] ∷ rest) = resolve-names stack rest
resolve-names stack ((c ∷ s) ∷ rest) = elim (Option-cases (enter stack (c ∷ s))) [
  | inl e ↦ rw (e, ◌>>=◌)
  | inr (next, e) ↦ rw (e, ◌>>=◌) (resolve-names next rest)
]

names-split-trim_left : (s : Bytes) → names (split (trim_left s)) ≡ names (split s)
names-split-trim_left [] = refl
names-split-trim_left (c ∷ s) = ground (arith, names-split-trim_left s)

-- What `trim_right` keeps: the first segment, and the others up to empty ones.
abbrev SameNames : Bytes → Bytes → Type 0
SameNames t s =
    (before_slash t ≡ before_slash s) × (names (later_segments t) ≡ names (later_segments s))

names-split : (t s : Bytes) → SameNames t s → names (split t) ≡ names (split s)
names-split t s (p, q) = rw (p, q)

trim_step_slash :
    (s r : Bytes) → SameNames r s → SameNames (if is_empty r then [] else slash ∷ r) (slash ∷ s)
trim_step_slash s [] h = (refl, names-split [] s h)
trim_step_slash s (d ∷ r) h = (refl, names-split (d ∷ r) s h)

trim_step :
    (c : ℕ) (s r : Bytes)
    → SameNames r s
    → SameNames (if c == slash && is_empty r then [] else c ∷ r) (c ∷ s)
trim_step c s r h = elim (Bool-cases (c == slash)) [
  | inl e ↦ rw ((==_iff c slash).0 e) (trim_step_slash s r h)
  | inr e ↦ (ground (arith, h.0), ground (arith, h.1))
]

trim_right-SameNames : (s : Bytes) → SameNames (trim_right s) s
trim_right-SameNames [] = (refl, refl)
trim_right-SameNames (c ∷ s) = trim_step c s (trim_right s) (trim_right-SameNames s)

pub is_rooted-trim : (s : Bytes) → is_rooted (trim s) ≡ false
is_rooted-trim [] = refl
is_rooted-trim (c ∷ s) = ground (arith, is_rooted-trim s)

pub resolve-trim : (s : Bytes) → resolve [] (split (trim s)) ≡ resolve [] (split s)
resolve-trim s =
    sym (resolve-names [] (split (trim s)))
    ∙ ap (resolve []) (
        names-split (trim s) (trim_left s) (trim_right-SameNames (trim_left s))
        ∙ names-split-trim_left s)
    ∙ resolve-names [] (split s)
