-- ===== src/Schema.antt =====
-- schema.go: routes from keys to prefixes.
pub mod Resolve
pub mod Extensions
use vire_fs.Base.{
  ℕ, Bool, true, false, ◌&&◌, ◌||◌, List, [], ◌∷◌, ◌++◌, map, if◌then◌else◌, ltb, ◌+◌, ◌-◌,
}
use vire_fs.Bytes.{Bytes, dot, equal, has_prefix}
use vire_fs.GoPath.{ext}

pub record Route : Type 0 where
  pub prefix : Bytes
  pub match : Bytes → Bool

-- `strings.ToLower` on ASCII text.
abbrev pub lower_byte : ℕ → ℕ
lower_byte c = if ltb b'@' c && ltb c b'[' then c + 32 else c

abbrev pub is_ascii : Bytes → Bool
is_ascii [] = true
is_ascii (c ∷ s) = ltb c 128 && is_ascii s

-- `strings.ToLower`. Beyond ASCII it goes by the Unicode tables, which are a parameter.
abbrev pub to_lower : (Bytes → Bytes) → Bytes → Bytes
to_lower unicode_lower s = if is_ascii s then map lower_byte s else unicode_lower s

-- Membership in the set that `RouteByExt` builds.
unfoldable pub listed : Bytes → List Bytes → Bool
listed s [] = false
listed s (t ∷ set) = equal s t || listed s set

-- An extension as it is stored: with a dot in front, in lower case.
unfoldable pub stored_ext : (Bytes → Bytes) → Bytes → Bytes
stored_ext unicode_lower e = to_lower unicode_lower (if has_prefix e (dot ∷ []) then e else dot ∷ e)

unfoldable pub route_by_ext : (Bytes → Bytes) → Bytes → List Bytes → Route
unfolding listed stored_ext
route_by_ext unicode_lower prefix exts = record {
  prefix = prefix;
  match = λ key. listed (to_lower unicode_lower (ext key)) (map (stored_ext unicode_lower) exts);
}

unfoldable pub route_by_func : Bytes → (Bytes → Bool) → Route
route_by_func prefix fn = record { prefix = prefix; match = fn }

unfoldable pub default_route : Bytes → Route
default_route prefix = record { prefix = prefix; match = λ key. true }

pub record Schema : Type 0 where
  pub routes : List Route

unfoldable pub new_schema : List Route → Schema
new_schema routes = record { routes = routes }

-- The loop of `Resolve`.
first_match : List Route → Bytes → Bytes
first_match [] key = key
first_match (r ∷ routes) key = if r.match key then r.prefix ++ key else first_match routes key

unfoldable pub resolve : Schema → Bytes → Bytes
unfolding first_match
resolve s key = first_match s.routes key
