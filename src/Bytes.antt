-- ===== src/Bytes.antt =====
-- Go strings as lists of bytes, with the functions of package `strings` that the sources call.
-- The separator of those calls is always the slash.
pub mod Segments
pub mod Decimal
use Prim.Native.Char.{code}
use Prim.Native.String.{String}
use vire_fs.Base.{
  ℕ, zero, suc, Bool, true, false, ◌&&◌, ◌||◌, List, [], ◌∷◌, ◌++◌, ◌==◌, if◌then◌else◌, length,
  drop, ◌≡◌, refl, ◌↔◌, ◌≢◌, arith,
}

abbrev pub Bytes : Type 0
Bytes = List ℕ

-- A literal of the source; all of them are ASCII.
abbrev pub codes : String → Bytes
codes String.[] = []
codes (String.◌∷◌ c s) = code c ∷ codes s

abbrev pub slash : ℕ
slash = b'/'

abbrev pub dot : ℕ
dot = b'.'

-- `s == t`
unfoldable pub equal : Bytes → Bytes → Bool
equal [] [] = true
equal [] (d ∷ t) = false
equal (c ∷ s) [] = false
equal (c ∷ s) (d ∷ t) = c == d && equal s t

pub equal_iff : (s t : Bytes) → (equal s t ≡ true) ↔ (s ≡ t)
unfolding equal
equal_iff (c ∷ s) (d ∷ t) = ground (arith, equal_iff s t)
equal_iff _ _ = ground arith

pub equal_refl : (s : Bytes) → equal s s ≡ true
equal_refl s = (equal_iff s s).1 refl

pub equal_ne : (s t : Bytes) → s ≢ t → equal s t ≡ false
equal_ne s t h = ground (arith, equal_iff s t)

-- `strings.HasPrefix(s, p)`
abbrev pub has_prefix : Bytes → Bytes → Bool
has_prefix s [] = true
has_prefix [] (d ∷ p) = false
has_prefix (c ∷ s) (d ∷ p) = c == d && has_prefix s p

pub has_prefix-append : (p s : Bytes) → has_prefix (p ++ s) p ≡ true
has_prefix-append [] s = ground arith
has_prefix-append (c ∷ p) s = ground (arith, has_prefix-append p s)

-- `strings.HasSuffix(s, p)`
abbrev pub has_suffix : Bytes → Bytes → Bool
has_suffix [] p = equal [] p
has_suffix (c ∷ s) p = equal (c ∷ s) p || has_suffix s p

-- `strings.Contains(s, p)`
abbrev pub contains : Bytes → Bytes → Bool
contains [] p = has_prefix [] p
contains (c ∷ s) p = has_prefix (c ∷ s) p || contains s p

-- `strings.TrimPrefix(s, p)`
unfoldable pub trim_prefix : Bytes → Bytes → Bytes
trim_prefix s p = if has_prefix s p then drop (length p) s else s

-- `strings.TrimLeft(s, "/")`
abbrev pub trim_left : Bytes → Bytes
trim_left [] = []
trim_left (c ∷ s) = let rest = trim_left s in if c == slash then rest else c ∷ s

abbrev pub is_empty : Bytes → Bool
is_empty [] = true
is_empty (c ∷ s) = false

-- `strings.TrimRight(s, "/")`
abbrev pub trim_right : Bytes → Bytes
trim_right [] = []
trim_right (c ∷ s) = let rest = trim_right s in if c == slash && is_empty rest then [] else c ∷ rest

-- `strings.Trim(s, "/")`
abbrev pub trim : Bytes → Bytes
trim s = trim_right (trim_left s)

-- The part before the first slash, and the one behind it: `strings.Cut(s, "/")`.
abbrev pub before_slash : Bytes → Bytes
before_slash [] = []
before_slash (c ∷ s) = let rest = before_slash s in if c == slash then [] else c ∷ rest

abbrev pub after_slash : Bytes → Bytes
after_slash [] = []
after_slash (c ∷ s) = let rest = after_slash s in if c == slash then s else rest

abbrev pub later_segments : Bytes → List Bytes
later_segments [] = []
later_segments (c ∷ s) =
    let rest = later_segments s in if c == slash then before_slash s ∷ rest else rest

-- `strings.Split(s, "/")`
abbrev pub split : Bytes → List Bytes
split s = before_slash s ∷ later_segments s

-- `strings.Join(parts, "/")`
abbrev pub join : List Bytes → Bytes
join [] = []
join (s ∷ []) = s
join (s ∷ t ∷ r) = s ++ (slash ∷ join (t ∷ r))
