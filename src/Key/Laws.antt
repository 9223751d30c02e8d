-- ===== src/Key/Laws.antt =====
-- What `CleanKey` returns, on every input.
use vire_fs.Base.{
  true, false, Option, none, some, List, [], ◌∷◌, ◌++◌, reverse, reverse-append, reverse-reverse,
  append-nil, if◌then◌else◌, All, All-reverse, Bool-cases, Option-cases, inl, inr, ◌≡◌, refl, sym,
  ◌∙◌, ap, arith,
}
use vire_fs.Bytes.{Bytes, equal, equal_ne, has_prefix, split, join, trim}
use vire_fs.Bytes.Segments.{split-NoSlash}
use vire_fs.GoPath.{is_rooted, or_dot, cur_dir, parent_dir, clean}
use vire_fs.GoPath.Laws.{IsName}
use vire_fs.Errors.{Result, ok, err, Error, ok-injective, errors_is, invalid_key}
use vire_fs.Key.{clean_key, is_traversal, traversal_error}
use vire_fs.Key.Resolve.{
  resolve, clean_segments-resolve, clean_segments_of_none, resolve-IsName, resolve_of_IsName,
}
use vire_fs.Key.Trim.{is_rooted-trim, resolve-trim}
use vire_fs.Key.Traversal.{
  has_prefix-join, is_traversal-join, or_dot-join, join-ne-cur_dir, split-join_of_IsName,
}

-- The key of a place, given by its names from the root: a first name that begins with `..` is
-- refused.
abbrev pub key_of : Bytes → List Bytes → Result Bytes
key_of raw [] = ok []
key_of raw (s ∷ segs) =
    if has_prefix s parent_dir then err (traversal_error raw) else ok (join (s ∷ segs))

abbrev pub report : Bytes → Option (List Bytes) → Result Bytes
report raw none = err (traversal_error raw)
report raw (some place) = key_of raw (reverse place)

-- The end of `CleanKey`, on the cleaned path.
abbrev finish : Bytes → Bytes → Result Bytes
finish raw cleaned =
    if equal cleaned cur_dir
    then ok []
    else if is_traversal cleaned
    then err (traversal_error raw)
    else ok cleaned

finish-key_of :
    (raw : Bytes) (segs : List Bytes)
    → All IsName segs
    → finish raw (or_dot (join segs)) ≡ key_of raw segs
unfolding equal
finish-key_of raw [] _ = refl
finish-key_of raw (s ∷ segs) h = rw (
  or_dot-join s segs h.0.not_empty,
  equal_ne (join (s ∷ segs)) cur_dir (join-ne-cur_dir s segs h),
  is_traversal-join s segs h,
)

finish_of_climb :
    (raw : Bytes) (segs : List Bytes)
    → finish raw (or_dot (join (reverse (segs ++ parent_dir ∷ [])))) ≡ err (traversal_error raw)
unfolding equal
finish_of_climb raw segs = rw reverse-append (climbed (reverse segs))
  where
    climbed :
        (r : List Bytes) → finish raw (or_dot (join (parent_dir ∷ r))) ≡ err (traversal_error raw)
    climbed [] = refl
    climbed (s ∷ r) = refl

finish-clean :
    (raw : Bytes)
    → is_rooted raw ≡ false
    → finish raw (clean raw) ≡ report raw (resolve [] (split raw))
unfolding clean
finish-clean raw h = elim (Option-cases (resolve [] (split raw))) [
  | inl lost ↦
      let (rest, e) = clean_segments_of_none [] (split raw) tt lost in
      rw (h, lost, e) (finish_of_climb raw rest)
  | inr (place, found) ↦
      let names =
        All-reverse IsName place (resolve-IsName [] (split raw) (split-NoSlash raw) tt found) in
      rw (h, found, clean_segments-resolve [] (split raw) tt found)
        (finish-key_of raw (reverse place) names)
]

clean_trimmed :
    (t : Bytes)
    → is_rooted t ≡ false
    → (if equal t [] then ok [] else finish t (clean t)) ≡ report t (resolve [] (split t))
unfolding equal resolve
clean_trimmed [] _ = refl
clean_trimmed (c ∷ s) h = finish-clean (c ∷ s) h

-- `clean_key` follows the segments of the raw key from the root of the store. It returns the
-- names that lead to the place found there, and an error if the key climbs above the root on its
-- way or if the first name begins with `..`.
pub clean_key-resolve : (raw : Bytes) → clean_key raw ≡ report (trim raw) (resolve [] (split raw))
unfolding clean_key resolve
clean_key-resolve [] = refl
clean_key-resolve (c ∷ s) =
    rw (← resolve-trim (c ∷ s)) (clean_trimmed (trim (c ∷ s)) (is_rooted-trim (c ∷ s)))

-- A key in normal form: names joined by slashes, the first one with no `..` in front. The empty
-- key, for the root, has no names.
pub record IsKey (k : Bytes) : Type 0 where
  pub segments : List Bytes
  pub joined : k ≡ join segments
  pub named : All IsName segments
  pub inside : has_prefix k parent_dir ≡ false

key_of-IsKey :
    (raw : Bytes) (segs : List Bytes) {k : Bytes}
    → All IsName segs
    → key_of raw segs ≡ ok k
    → IsKey k
key_of-IsKey raw [] h e =
    rw (← ok-injective e) (record { segments = []; joined = refl; named = tt; inside = refl })
key_of-IsKey raw (s ∷ segs) h e = elim (Bool-cases (has_prefix s parent_dir)) [
  | inl climbs ↦ cc (rw climbs at e)
  | inr stays ↦ rw (← ok-injective (rw stays at e)) (record {
    segments = s ∷ segs;
    joined = refl;
    named = h;
    inside = has_prefix-join s segs h ∙ stays;
  })
]

-- Every key that `clean_key` returns is in normal form.
pub clean_key-IsKey : (raw : Bytes) {k : Bytes} → clean_key raw ≡ ok k → IsKey k
clean_key-IsKey raw {k} e = elim (Option-cases (resolve [] (split raw))) [
  | inl lost ↦ cc (rw (clean_key-resolve raw, lost) at e)
  | inr (place, found) ↦
      key_of-IsKey (trim raw) (reverse place)
        (All-reverse IsName place (resolve-IsName [] (split raw) (split-NoSlash raw) tt found))
        (rw (clean_key-resolve raw, found) at e)
]

clean_key-join_cons :
    (s : Bytes) (segs : List Bytes)
    → All IsName (s ∷ segs)
    → has_prefix (join (s ∷ segs)) parent_dir ≡ false
    → clean_key (join (s ∷ segs)) ≡ ok (join (s ∷ segs))
clean_key-join_cons s segs h inside =
    let found : resolve [] (split (join (s ∷ segs))) ≡ some (reverse (s ∷ segs)) =
      ap (resolve []) (split-join_of_IsName s segs h)
      ∙ resolve_of_IsName [] (s ∷ segs) h
      ∙ ap some (append-nil (reverse (s ∷ segs))) in
    clean_key-resolve (join (s ∷ segs))
    ∙ ap (report (trim (join (s ∷ segs)))) found
    ∙ ap (key_of (trim (join (s ∷ segs)))) (reverse-reverse (s ∷ segs))
    ∙ rw (sym (has_prefix-join s segs h) ∙ inside)

clean_key-join :
    (segs : List Bytes)
    → All IsName segs
    → has_prefix (join segs) parent_dir ≡ false
    → clean_key (join segs) ≡ ok (join segs)
clean_key-join [] _ _ = unfold clean_key in refl
clean_key-join (s ∷ segs) h inside = clean_key-join_cons s segs h inside

-- A key in normal form is returned as it is.
pub clean_key_of_IsKey : {k : Bytes} → IsKey k → clean_key k ≡ ok k
clean_key_of_IsKey {k} h = rw h.joined (clean_key-join h.segments h.named (rw h.joined at h.inside))

-- Every error of `clean_key` is an `ErrInvalidKey`.
pub clean_key-errors_is :
    (raw : Bytes) {e : Error} → clean_key raw ≡ err e → errors_is e invalid_key ≡ true
unfolding clean_key
clean_key-errors_is raw h = ground arith
