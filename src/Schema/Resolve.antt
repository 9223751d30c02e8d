-- ===== src/Schema/Resolve.antt =====
-- The first route that matches decides.
use vire_fs.Base.{true, false, List, [], ◌∷◌, ◌++◌, All, Bool-cases, ◌⊎◌, inl, inr, ◌≡◌, refl, ap}
use vire_fs.Bytes.{Bytes}
use vire_fs.Schema.{Route, Schema, first_match, resolve}

abbrev pub Misses : Bytes → Route → Type 0
Misses key r = r.match key ≡ false

-- The first route that matches the key.
pub record FirstMatch (routes : List Route) (key : Bytes) : Type 0 where
  pub earlier : List Route
  pub route : Route
  pub later : List Route
  pub splits : routes ≡ earlier ++ route ∷ later
  pub missed : All (Misses key) earlier
  pub matched : route.match key ≡ true

first_match-cases :
    (routes : List Route) (key : Bytes)
    → ((m : FirstMatch routes key) × (first_match routes key ≡ m.route.prefix ++ key))
      ⊎ (All (Misses key) routes × (first_match routes key ≡ key))
unfolding first_match
first_match-cases [] key = inr (tt, refl)
first_match-cases (r ∷ routes) key = elim (Bool-cases (r.match key)) [
  | inl hit ↦ inl (
    record { earlier = []; route = r; later = routes; splits = refl; missed = tt; matched = hit },
    rw hit,
  )
  | inr miss ↦ elim (first_match-cases routes key) [
    | inl (m, e) ↦ inl (
      record {
        earlier = r ∷ m.earlier;
        route = m.route;
        later = m.later;
        splits = ap (◌∷◌ r) m.splits;
        missed = (miss, m.missed);
        matched = m.matched;
      },
      rw miss e,
    )
    | inr (misses, e) ↦ inr ((miss, misses), rw miss e)
  ]
]

-- `resolve` puts the prefix of the first route that matches in front of the key, and returns the
-- key unchanged if no route matches.
resolve-cases :
    (s : Schema) (key : Bytes)
    → ((m : FirstMatch s.routes key) × (resolve s key ≡ m.route.prefix ++ key))
      ⊎ (All (Misses key) s.routes × (resolve s key ≡ key))
unfolding resolve
resolve-cases s key = first_match-cases s.routes key
