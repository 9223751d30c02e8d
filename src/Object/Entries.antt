-- ===== src/Object/Entries.antt =====
-- What List makes of a page of a bucket, and the prefix that it asks for, said without its code.
use vire_fs.Base.{
  not, ◌&&◌, if◌then◌else◌, ℕ, zero, suc, true, false, Option, List, [], ◌∷◌, ◌++◌, map, length,
  take, drop, ltb, ◌-◌, ◌<◌, ◌≤◌, Bool-cases, inl, inr, ◌≡◌, ◌≢◌, refl, sym, ap, ◌∙◌, subst, arith,
  length-append, drop-append,
}
use vire_fs.Base.Int.{pos}
use vire_fs.Bytes.{Bytes, slash, equal, equal_iff, equal_ne, has_suffix}
use vire_fs.Fs.{FileInfo}
use vire_fs.Object.{Aws, ObjectFs, Object, ListObjectsOutput}
use vire_fs.Object.Listing.{trim_slash, s3_prefix, relative, object_info, prefix_info, page_files}

-- A name, and the name without a slash at its end.
pub data Trimmed : Bytes → Bytes → Type 0 where
  trimmed : (d : Bytes) → Trimmed (d ++ slash ∷ []) d
  kept : {s : Bytes} → ((d : Bytes) → s ≢ d ++ slash ∷ []) → Trimmed s s

-- A name, and the name with a slash at its end, if it is not empty.
pub data Slashed : Bytes → Bytes → Type 0 where
  empty : Slashed [] []
  slashed : (d : Bytes) → Slashed (d ++ slash ∷ []) (d ++ slash ∷ [])
  lacking : {s : Bytes} → s ≢ [] → ((d : Bytes) → s ≢ d ++ slash ∷ []) → Slashed s (s ++ slash ∷ [])

has_suffix-append : (d : Bytes) → has_suffix (d ++ slash ∷ []) (slash ∷ []) ≡ true
unfolding equal
has_suffix-append [] = refl
has_suffix-append (c ∷ d) = ground (arith, has_suffix-append d)

has_suffix-split :
    (s : Bytes) → has_suffix s (slash ∷ []) ≡ true → (d : Bytes) × (s ≡ d ++ slash ∷ [])
unfolding equal
has_suffix-split [] h = cc
has_suffix-split (c ∷ s) h = elim (Bool-cases (equal (c ∷ s) (slash ∷ []))) [
  | inl same ↦ ([], (equal_iff (c ∷ s) (slash ∷ [])).0 same)
  | inr other ↦ let (d, e) = has_suffix-split s (rw other at h) in (c ∷ d, ap (λ l. c ∷ l) e)
]

no_slash : (s : Bytes) → has_suffix s (slash ∷ []) ≡ false → (d : Bytes) → s ≢ d ++ slash ∷ []
no_slash s h d e = cc (sym h ∙ ap (λ l. has_suffix l (slash ∷ [])) e ∙ has_suffix-append d)

has_suffix-false :
    (s : Bytes) → ((d : Bytes) → s ≢ d ++ slash ∷ []) → has_suffix s (slash ∷ []) ≡ false
has_suffix-false s h = elim (Bool-cases (has_suffix s (slash ∷ []))) [
  | inl ends ↦ let (d, e) = has_suffix-split s ends in absurd (h d e)
  | inr other ↦ other
]

take-append : (d s : Bytes) → take (length d) (d ++ s) ≡ d
take-append [] s = refl
take-append (c ∷ d) s = ap (λ l. c ∷ l) (take-append d s)

trim_slash-append : (d : Bytes) → trim_slash (d ++ slash ∷ []) ≡ d
unfolding trim_slash
trim_slash-append d =
    let one_less : length (d ++ slash ∷ []) - 1 ≡ length d =
      omega (arith, length-append d (slash ∷ [])) in
    rw (has_suffix-append d, one_less) (take-append d (slash ∷ []))

trim_slash-eq : {s d : Bytes} → Trimmed s d → d ≡ trim_slash s
unfolding trim_slash
trim_slash-eq (trimmed d) = sym (trim_slash-append d)
trim_slash-eq (kept {s} h) = rw (has_suffix-false s h) refl

trim_slash-Trimmed : (s : Bytes) → Trimmed s (trim_slash s)
unfolding trim_slash
trim_slash-Trimmed s = elim (Bool-cases (has_suffix s (slash ∷ []))) [
  | inl ends ↦
      let (d, e) = has_suffix-split s ends in
      subst (λ t. Trimmed t (trim_slash t)) (sym e)
        (subst (Trimmed (d ++ slash ∷ [])) (sym (trim_slash-append d)) (trimmed d))
  | inr other ↦ rw other (kept (no_slash s other))
]

take-drop : (n : ℕ) (s : Bytes) → s ≡ take n s ++ drop n s
take-drop zero s = refl
take-drop (suc n) [] = refl
take-drop (suc n) (c ∷ s) = ap (λ l. c ∷ l) (take-drop n s)

length-take-eq : (n : ℕ) (s : Bytes) → n < length s → length (take n s) ≡ n
length-take-eq zero s h = refl
length-take-eq (suc n) [] h = omega arith
length-take-eq (suc n) (c ∷ s) h = omega (arith, length-take-eq n s)

drop-ne-nil : (n : ℕ) (s : Bytes) → n < length s → drop n s ≢ []
drop-ne-nil zero [] h e = omega arith
drop-ne-nil zero (c ∷ s) h e = cc
drop-ne-nil (suc n) [] h e = omega arith
drop-ne-nil (suc n) (c ∷ s) h e = drop-ne-nil n s (omega arith) e

module _ {W : Type 0} (o : ObjectFs W) where
  -- A key of the bucket, and the key without as many bytes as the base prefix has, if it is longer.
  pub data Relative : Bytes → Bytes → Type 0 where
    longer : (p r : Bytes) → length p ≡ length o.base_prefix → r ≢ [] → Relative (p ++ r) r
    short : {k : Bytes} → length k ≤ length o.base_prefix → Relative k k

  relative-eq : {k r : Bytes} → Relative k r → r ≡ relative o k
  unfolding relative
  relative-eq (longer p [] same ne) = absurd (ne refl)
  relative-eq (longer p (c ∷ r) same ne) =
      let is_longer : ltb (length o.base_prefix) (length (p ++ c ∷ r)) ≡ true =
        ground (arith, length-append p (c ∷ r)) in
      rw (is_longer, sym same) (sym (drop-append p (c ∷ r)))
  relative-eq (short {k} le) =
      let is_short : ltb (length o.base_prefix) (length k) ≡ false = ground arith in
      rw is_short refl

  relative-Relative : (k : Bytes) → Relative k (relative o k)
  unfolding relative
  relative-Relative k = elim (Bool-cases (ltb (length o.base_prefix) (length k))) [
    | inl is_longer ↦
        let n = length o.base_prefix in
        let lt : n < length k = ground arith in
        rw is_longer (
          subst (λ l. Relative l (drop n k)) (sym (take-drop n k))
            (longer (take n k) (drop n k) (length-take-eq n k lt) (drop-ne-nil n k lt)))
    | inr is_short ↦ rw is_short (short (ground arith))
  ]

  pub s3_prefix-eq :
      (cleaned : Bytes) {p : Bytes} → Slashed (o.base_prefix ++ cleaned) p → p ≡ s3_prefix o cleaned
  unfolding s3_prefix
  s3_prefix-eq cleaned h = by_view (o.base_prefix ++ cleaned) h
    where
      by_view :
          (s : Bytes) {p : Bytes}
          → Slashed s p
          → p ≡ (if not (equal s []) && not (has_suffix s (slash ∷ [])) then s ++ slash ∷ [] else s)
      by_view s empty = ground arith
      by_view s (slashed d) = elim (Bool-cases (equal s [])) [
        | inl is_empty ↦ rw is_empty refl
        | inr other ↦ rw (other, has_suffix-append d) refl
      ]
      by_view s (lacking ne h') = rw (equal_ne s [] ne, has_suffix-false s h') refl

module _ (aws : Aws) {W : Type 0} (o : ObjectFs W) where
  -- The entry of an object.
  pub data OfObject (obj : Object) : FileInfo → Type 0 where
    a_file :
        {key : Bytes}
        → Relative o (aws.to_string obj.key) key
        → OfObject obj (record {
          key = key;
          size = aws.to_int64 obj.size;
          last_modified = aws.to_time obj.last_modified;
          is_dir = false;
          content_type = [];
        })

  -- The entry of a common prefix.
  pub data OfPrefix (cp : Option Bytes) : FileInfo → Type 0 where
    a_dir :
        {key k : Bytes}
        → Relative o (aws.to_string cp) k
        → Trimmed k key
        → OfPrefix cp (record {
          key = key;
          size = pos 0;
          last_modified = 0;
          is_dir = true;
          content_type = [];
        })

  -- The entries of a page: one for each object, then one for each common prefix, in their order.
  pub data Page : List Object → List (Option Bytes) → List FileInfo → Type 0 where
    done : Page [] [] []
    next_prefix :
        {cp : Option Bytes} {cps : List (Option Bytes)} {fi : FileInfo} {fis : List FileInfo}
        → OfPrefix cp fi
        → Page [] cps fis
        → Page [] (cp ∷ cps) (fi ∷ fis)
    next_object :
        {obj : Object} {objs : List Object} {cps : List (Option Bytes)} {fi : FileInfo}
        {fis : List FileInfo}
        → OfObject obj fi
        → Page objs cps fis
        → Page (obj ∷ objs) cps (fi ∷ fis)

  OfObject-eq : {obj : Object} {fi : FileInfo} → OfObject obj fi → fi ≡ object_info aws o obj
  OfObject-eq {obj} (a_file r) =
      ap (λ k. record (object_info aws o obj) { key = k }) (relative-eq o r)

  OfPrefix-eq : {cp : Option Bytes} {fi : FileInfo} → OfPrefix cp fi → fi ≡ prefix_info aws o cp
  OfPrefix-eq {cp} (a_dir r t) =
      ap (λ k. record (prefix_info aws o cp) { key = k })
        (trim_slash-eq t ∙ ap trim_slash (relative-eq o r))

  Page-map :
      {objs : List Object} {cps : List (Option Bytes)} {fis : List FileInfo}
      → Page objs cps fis
      → fis ≡ map (object_info aws o) objs ++ map (prefix_info aws o) cps
  Page-map done = refl
  Page-map (next_prefix e p) = rw (OfPrefix-eq e, Page-map p) refl
  Page-map (next_object e p) = rw (OfObject-eq e, Page-map p) refl

  pub Page-eq :
      (out : ListObjectsOutput) {fis : List FileInfo}
      → Page out.contents out.common_prefixes fis
      → fis ≡ page_files aws o out
  Page-eq out p = Page-map p

  map-Page :
      (objs : List Object) (cps : List (Option Bytes))
      → Page objs cps (map (object_info aws o) objs ++ map (prefix_info aws o) cps)
  map-Page [] [] = done
  map-Page [] (cp ∷ cps) =
      next_prefix (a_dir (relative-Relative o (aws.to_string cp)) (trim_slash-Trimmed _))
        (map-Page [] cps)
  map-Page (obj ∷ objs) cps =
      next_object (a_file (relative-Relative o (aws.to_string obj.key))) (map-Page objs cps)

  pub page_files-Page :
      (out : ListObjectsOutput) → Page out.contents out.common_prefixes (page_files aws o out)
  page_files-Page out = map-Page out.contents out.common_prefixes
