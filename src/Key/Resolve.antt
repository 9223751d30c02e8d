-- ===== src/Key/Resolve.antt =====
-- An independent description of `CleanKey`: the segments between slashes are names to be followed
-- one by one from the root of the store.
use vire_fs.Base.{
  false, ◌||◌, Option, none, some, List, [], ◌∷◌, ◌++◌, reverse, reverse-cons, append_assoc,
  if◌then◌else◌, All, Option-cases, inl, inr, ◌≡◌, refl, ◌∙◌, ◌≢◌, arith,
}
use vire_fs.Bytes.{Bytes, equal, equal_iff}
use vire_fs.Bytes.Segments.{NoSlash}
use vire_fs.GoPath.{cur_dir, parent_dir, clean_step, clean_segments}
use vire_fs.GoPath.Laws.{IsName, clean_segments_climbed}

-- The directory above; the root has none.
abbrev above : List Bytes → Option (List Bytes)
above [] = none
above (top ∷ stack) = some stack

-- One segment: `none` means that the key leaves the store.
abbrev pub enter : List Bytes → Bytes → Option (List Bytes)
enter stack s =
    if equal s [] || equal s cur_dir
    then some stack
    else if equal s parent_dir
    then above stack
    else some (s ∷ stack)

infixl 5 ◌>>=◌
abbrev pub ◌>>=◌ : {A B : Type 0} → Option A → (A → Option B) → Option B
none >>= f = none
some a >>= f = f a

-- The place that the segments lead to, the last name on top.
unfoldable pub resolve : List Bytes → List Bytes → Option (List Bytes)
resolve stack [] = some stack
resolve stack (s ∷ rest) = enter stack s >>= λ next. resolve next rest

abbrev NoParent : List Bytes → Type 0
NoParent = All (λ s. s ≢ parent_dir)

clean_step-enter :
    (stack : List Bytes) (s : Bytes) {next : List Bytes}
    → NoParent stack
    → enter stack s ≡ some next
    → (clean_step false stack s ≡ next) × NoParent next
clean_step-enter [] s h e = ground (arith, equal_iff s parent_dir)
clean_step-enter (top ∷ stack) s h e =
    ground (arith, equal_iff s parent_dir, equal_iff top parent_dir)

clean_step_of_none :
    (stack : List Bytes) (s : Bytes)
    → enter stack s ≡ none
    → clean_step false stack s ≡ parent_dir ∷ []
clean_step_of_none [] s e = ground arith
clean_step_of_none (top ∷ stack) s e = ground arith

enter-IsName :
    (stack : List Bytes) (s : Bytes) {next : List Bytes}
    → NoSlash s
    → All IsName stack
    → enter stack s ≡ some next
    → All IsName next
enter-IsName [] s p h e =
    ground (arith, equal_iff s [], equal_iff s cur_dir, equal_iff s parent_dir)
enter-IsName (top ∷ stack) s p h e =
    ground (arith, equal_iff s [], equal_iff s cur_dir, equal_iff s parent_dir)

-- `path.Clean` meets the description where the key stays inside the store.
pub clean_segments-resolve :
    (stack segs : List Bytes) {place : List Bytes}
    → NoParent stack
    → resolve stack segs ≡ some place
    → clean_segments false stack segs ≡ place
unfolding resolve
clean_segments-resolve stack [] h e = ground arith
clean_segments-resolve stack (s ∷ segs) h e = elim (Option-cases (enter stack s)) [
  | inl lost ↦ cc (rw lost at e)
  | inr (next, found) ↦
      let (stepped, h') = clean_step-enter stack s h found in
      rw stepped (clean_segments-resolve next segs h' (rw found at e))
]

-- A key that leaves the store is left with a `..` in front.
pub clean_segments_of_none :
    (stack segs : List Bytes)
    → NoParent stack
    → resolve stack segs ≡ none
    → (rest : List Bytes) × (clean_segments false stack segs ≡ rest ++ parent_dir ∷ [])
unfolding resolve
clean_segments_of_none stack [] h e = cc
clean_segments_of_none stack (s ∷ segs) h e = elim (Option-cases (enter stack s)) [
  | inl lost ↦ rw (clean_step_of_none stack s lost) (clean_segments_climbed [] segs)
  | inr (next, found) ↦
      let (stepped, h') = clean_step-enter stack s h found in
      rw stepped (clean_segments_of_none next segs h' (rw found at e))
]

-- The place is made of names.
pub resolve-IsName :
    (stack segs : List Bytes) {place : List Bytes}
    → All NoSlash segs
    → All IsName stack
    → resolve stack segs ≡ some place
    → All IsName place
unfolding resolve
resolve-IsName stack [] _ h e = ground arith
resolve-IsName stack (s ∷ segs) (p, k) h e = elim (Option-cases (enter stack s)) [
  | inl lost ↦ cc (rw lost at e)
  | inr (next, found) ↦ resolve-IsName next segs k (enter-IsName stack s p h found) (rw found at e)
]

enter_of_IsName : (stack : List Bytes) (s : Bytes) → IsName s → enter stack s ≡ some (s ∷ stack)
enter_of_IsName stack s n =
    ground (arith, equal_iff s [], equal_iff s cur_dir, equal_iff s parent_dir)

-- Names lead down from where they start.
pub resolve_of_IsName :
    (stack segs : List Bytes) → All IsName segs → resolve stack segs ≡ some (reverse segs ++ stack)
unfolding resolve
resolve_of_IsName stack [] _ = refl
resolve_of_IsName stack (s ∷ segs) (n, h) =
    rw (enter_of_IsName stack s n)
      (resolve_of_IsName (s ∷ stack) segs h ∙ rw (reverse-cons, append_assoc))
