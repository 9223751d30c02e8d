-- ===== src/GoPath/Laws.antt =====
-- What `path.Clean` leaves of the segments of a path.
use vire_fs.Base.{
  Bool, false, ◌||◌, List, [], ◌∷◌, ◌++◌, reverse, All, Bool-cases, inl, inr, ◌≡◌, refl, ◌∙◌, ◌≢◌,
  append_assoc, arith, reverse-cons,
}
use vire_fs.Bytes.{Bytes, equal, equal_iff}
use vire_fs.Bytes.Segments.{NoSlash}
use vire_fs.GoPath.{cur_dir, parent_dir, clean_step, clean_segments}

-- A segment that names an entry of a directory: not empty, no `.` or `..`, and no slash in it.
pub record IsName (s : Bytes) : Type 0 where
  pub not_empty : s ≢ []
  pub not_cur : s ≢ cur_dir
  pub not_parent : s ≢ parent_dir
  pub no_slash : NoSlash s

clean_step_of_IsName :
    (rooted : Bool) (stack : List Bytes) (s : Bytes)
    → IsName s
    → clean_step rooted stack s ≡ s ∷ stack
clean_step_of_IsName rooted stack s n =
    ground (arith, equal_iff s [], equal_iff s cur_dir, equal_iff s parent_dir)

pub clean_segments_of_IsName :
    (rooted : Bool) (stack segs : List Bytes)
    → All IsName segs
    → clean_segments rooted stack segs ≡ reverse segs ++ stack
clean_segments_of_IsName rooted stack [] _ = refl
clean_segments_of_IsName rooted stack (s ∷ segs) (n, h) =
    rw (clean_step_of_IsName rooted stack s n)
      (clean_segments_of_IsName rooted (s ∷ stack) segs h ∙ rw (reverse-cons, append_assoc))

clean_step_climbed :
    (stack : List Bytes) (s : Bytes)
    → (above : List Bytes) × (clean_step false (stack ++ parent_dir ∷ []) s
        ≡ above ++ parent_dir ∷ [])
unfolding equal
clean_step_climbed [] s = elim (Bool-cases (equal s [] || equal s cur_dir)) [
  | inl h ↦ ([], rw h)
  | inr h ↦ elim (Bool-cases (equal s parent_dir)) [
    | inl e ↦ (parent_dir ∷ [], rw (h, e))
    | inr e ↦ (s ∷ [], rw (h, e))
  ]
]
clean_step_climbed (top ∷ stack) s = elim (Bool-cases (equal s [] || equal s cur_dir)) [
  | inl h ↦ (top ∷ stack, rw h)
  | inr h ↦ elim (Bool-cases (equal s parent_dir)) [
    | inl e ↦ elim (Bool-cases (equal top parent_dir)) [
      | inl t ↦ (parent_dir ∷ top ∷ stack, rw (h, e, t))
      | inr t ↦ (stack, rw (h, e, t))
    ]
    | inr e ↦ (s ∷ top ∷ stack, rw (h, e))
  ]
]

-- Once a path has climbed above its start, it stays there.
pub clean_segments_climbed :
    (stack segs : List Bytes)
    → (rest : List Bytes) × (clean_segments false (stack ++ parent_dir ∷ []) segs
        ≡ rest ++ parent_dir ∷ [])
clean_segments_climbed stack [] = (stack, refl)
clean_segments_climbed stack (s ∷ segs) =
    let (above, e) = clean_step_climbed stack s in rw e (clean_segments_climbed above segs)
