-- ===== src/Zip/Listing.antt =====
-- What List of an archive gives, said by the places of the keys below the prefix.
use mathlib.Core.List.{Memᴰ}
use vire_fs.Base.{
  suc, true, false, none, some, List, [], ◌∷◌, ◌++◌, append_assoc, append-nil, length, drop,
  length-append, Bool-cases, ◌⊎◌, inl, inr, ◌==◌, ==_iff, ◌≡◌, ◌≢◌, refl, ap, sym, ◌∙◌, subst,
  arith,
}
use vire_fs.Base.Int.{to_int64}
use vire_fs.Bytes.{
  Bytes, slash, equal, equal_iff, contains, has_prefix, has_prefix-append, before_slash,
  after_slash,
}
use vire_fs.Bytes.Segments.{NoSlash, before_slash-NoSlash}
use vire_fs.GoPath.{ext}
use vire_fs.Fs.{FileInfo, no_info}
use vire_fs.Zip.{ZipFile, Index, rest_of, below, is_seen, file_info, list_index}

abbrev dir_info : Bytes → FileInfo
dir_info key = record no_info { key = key; is_dir = true }

-- `Under prefix rest k`: the key `k` is `rest` below the prefix, where nothing is the root.
pub data Under : Bytes → Bytes → Bytes → Type 0 where
  at_root : {rest : Bytes} → Under [] rest rest
  in_dir : {prefix rest : Bytes} → prefix ≢ [] → Under prefix rest (prefix ++ (slash ∷ rest))

module _ {W : Type 0} (type_by_extension : Bytes → Bytes) (prefix : Bytes) where
  -- What List gives for the entries of an index, in their order, where the directories that are
  -- named have been listed already.
  pub data Lists : List Bytes → Index W → List FileInfo → Type 0 where
    nothing : {seen : List Bytes} → Lists seen [] []
    elsewhere :
        {seen : List Bytes} {k : Bytes} {f : ZipFile W} {idx : Index W} {out : List FileInfo}
        → ((rest : Bytes) → ¬ Under prefix rest k)
        → Lists seen idx out
        → Lists seen ((k, f) ∷ idx) out
    a_file :
        {seen : List Bytes} {k : Bytes} {f : ZipFile W} {idx : Index W} {out : List FileInfo}
        (rest : Bytes)
        → Under prefix rest k
        → NoSlash rest
        → Lists seen idx out
        → Lists seen ((k, f) ∷ idx) (
            record {
              key = k;
              size = to_int64 f.uncompressed_size;
              last_modified = f.modified;
              is_dir = f.is_dir;
              content_type = type_by_extension (ext k);
            }
            ∷ out)
    new_dir :
        {seen : List Bytes} {k : Bytes} {f : ZipFile W} {idx : Index W} {out : List FileInfo}
        {d : Bytes} (name rest : Bytes)
        → Under prefix (name ++ (slash ∷ rest)) k
        → NoSlash name
        → Under prefix name d
        → ¬ Memᴰ d seen
        → Lists (d ∷ seen) idx out
        → Lists seen ((k, f) ∷ idx) (record no_info { key = d; is_dir = true } ∷ out)
    old_dir :
        {seen : List Bytes} {k : Bytes} {f : ZipFile W} {idx : Index W} {out : List FileInfo}
        (name rest d : Bytes)
        → Under prefix (name ++ (slash ∷ rest)) k
        → NoSlash name
        → Under prefix name d
        → Memᴰ d seen
        → Lists seen idx out
        → Lists seen ((k, f) ∷ idx) out

is_seen-Memᴰ : (d : Bytes) (seen : List Bytes) → is_seen d seen ≡ true → Memᴰ d seen
is_seen-Memᴰ d [] h = cc
is_seen-Memᴰ d (k ∷ seen) h = elim (Bool-cases (equal d k)) [
  | inl same ↦ Memᴰ.head ((equal_iff d k).0 same)
  | inr other ↦ Memᴰ.tail (is_seen-Memᴰ d seen (rw other at h))
]

is_seen-not : (d : Bytes) (seen : List Bytes) → is_seen d seen ≡ false → ¬ Memᴰ d seen
is_seen-not d [] h m = elim m [ ]
is_seen-not d (k ∷ seen) h (Memᴰ.head e) = cc (rw ((equal_iff d k).1 e) at h)
is_seen-not d (k ∷ seen) h (Memᴰ.tail m) = elim (Bool-cases (equal d k)) [
  | inl same ↦ cc (rw same at h)
  | inr other ↦ is_seen-not d seen (rw other at h) m
]

has_prefix-split : (s p : Bytes) → has_prefix s p ≡ true → s ≡ p ++ drop (length p) s
has_prefix-split s [] h = refl
has_prefix-split [] (d ∷ p) h = cc
has_prefix-split (c ∷ s) (d ∷ p) h = ground (arith, has_prefix-split s p)

below-Under : (prefix name : Bytes) → Under prefix name (below prefix name)
below-Under [] name = at_root
below-Under (c ∷ p) name = in_dir (λ e. cc)

-- The two cases of the prefix, and of the rest.
rest_of-cases :
    (prefix k : Bytes)
    → ((rest : Bytes) × (rest_of prefix k ≡ some rest) × Under prefix rest k)
      ⊎ ((rest_of prefix k ≡ none) × ((rest : Bytes) → ¬ Under prefix rest k))
rest_of-cases [] k = inl (k, refl, at_root)
rest_of-cases (c ∷ p) k = elim (Bool-cases (has_prefix k (c ∷ p ++ slash ∷ []))) [
  | inl starts ↦
      let n : length (c ∷ p ++ slash ∷ []) ≡ suc (length (c ∷ p)) =
        omega (arith, length-append (c ∷ p) (slash ∷ [])) in
      let rest = drop (suc (length (c ∷ p))) k in
      let split : k ≡ c ∷ p ++ (slash ∷ rest) =
        has_prefix-split k (c ∷ p ++ slash ∷ []) starts
        ∙ ap (λ m. (c ∷ p ++ slash ∷ []) ++ drop m k) n
        ∙ append_assoc (c ∷ p) (slash ∷ []) rest in
      inl (rest, rw starts refl, subst (Under (c ∷ p) rest) (sym split) (in_dir (λ e. cc)))
  | inr other ↦ inr (rw other refl, λ rest u. not_under rest k other u)
]
  where
    not_under :
        (rest k' : Bytes) → has_prefix k' (c ∷ p ++ slash ∷ []) ≡ false → ¬ Under (c ∷ p) rest k'
    not_under rest k' other (in_dir ne) = cc (
        sym other
        ∙ ap (λ s. has_prefix s (c ∷ p ++ slash ∷ []))
            (sym (append_assoc (c ∷ p) (slash ∷ []) rest))
        ∙ has_prefix-append (c ∷ p ++ slash ∷ []) rest)

slash-cases :
    (rest : Bytes)
    → ((contains rest (slash ∷ []) ≡ true)
        × (rest ≡ before_slash rest ++ (slash ∷ after_slash rest)))
      ⊎ ((contains rest (slash ∷ []) ≡ false) × NoSlash rest)
slash-cases [] = inr (refl, tt)
slash-cases (c ∷ s) = elim (Bool-cases (c == slash)) [
  | inl here ↦ inl (rw here refl, rw (here, (==_iff c slash).0 here) refl)
  | inr other ↦ elim (slash-cases s) [
    | inl (later, e) ↦ inl (rw (other, later) refl, rw other (ap (λ l. c ∷ l) e))
    | inr (never, none_there) ↦
        inr (rw (other, never) refl, (λ same. cc (sym other ∙ (==_iff c slash).1 same), none_there))
  ]
]

module _ {W : Type 0} (type_by_extension : Bytes → Bytes) (prefix : Bytes) where
  -- The loop from one of its states on.
  abbrev Continues : List Bytes → Index W → List FileInfo → List FileInfo → Type 0
  Continues seen idx entries all =
      (out : List FileInfo) × (all ≡ entries ++ out) × Lists type_by_extension prefix seen idx out

  one_more :
      {seen seen' : List Bytes} {idx idx' : Index W} {all : List FileInfo} (entries : List FileInfo)
      (fi : FileInfo)
      → ((out : List FileInfo)
          → Lists type_by_extension prefix seen' idx' out
          → Lists type_by_extension prefix seen idx (fi ∷ out))
      → Continues seen' idx' (entries ++ fi ∷ []) all
      → Continues seen idx entries all
  one_more entries fi rule (out, e, l) =
      (fi ∷ out, e ∙ append_assoc entries (fi ∷ []) out, rule out l)

  list_index-Continues :
      (idx : Index W) (seen : List Bytes) (entries : List FileInfo)
      → Continues seen idx entries (list_index type_by_extension prefix idx (seen, entries))
  unfolding list_index
  list_index-Continues [] seen entries = ([], sym (append-nil entries), nothing)
  list_index-Continues ((k, f) ∷ idx) seen entries = elim (rest_of-cases prefix k) [
    | inr (outside, never) ↦
        let (out, e, l) = list_index-Continues idx seen entries in
        rw outside (out, e, elsewhere never l)
    | inl (rest, is, under) ↦ elim (slash-cases rest) [
      | inr (direct, plain) ↦
          rw (is, direct)
            (one_more entries (file_info type_by_extension k f) (λ out l. a_file rest under plain l)
              (list_index-Continues idx seen (entries ++ file_info type_by_extension k f ∷ [])))
      | inl (deep, split) ↦
          let name = before_slash rest in
          let d = below prefix name in
          let within = subst (λ r. Under prefix r k) split under in
          elim (Bool-cases (is_seen d seen)) [
            | inl old ↦
                let (out, e, l) = list_index-Continues idx seen entries in
                rw (is, deep, old)
                  (
                    out,
                    e,
                    old_dir name (after_slash rest) d within (before_slash-NoSlash rest)
                        (below-Under prefix name) (is_seen-Memᴰ d seen old) l,
                  )
            | inr new ↦
                rw (is, deep, new)
                  (one_more entries (dir_info d)
                    (λ out l.
                      new_dir name (after_slash rest) within (before_slash-NoSlash rest)
                        (below-Under prefix name) (is_seen-not d seen new) l)
                    (list_index-Continues idx (d ∷ seen) (entries ++ dir_info d ∷ [])))
          ]
    ]
  ]

  -- The loop of List gives, in its order, each entry of the index whose key is directly below the
  -- prefix, and for each that is further down the directory directly below the prefix that it is
  -- in, once for all entries in that directory. It gives nothing for the other entries.
  pub list_index-Lists :
      (idx : Index W)
      → Lists type_by_extension prefix [] idx (list_index type_by_extension prefix idx ([], []))
  list_index-Lists idx =
      let (out, e, l) = list_index-Continues idx [] [] in
      subst (Lists type_by_extension prefix [] idx) (sym e) l
