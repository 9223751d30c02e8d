-- ===== src/Zip/RoundTrip.antt =====
-- Pack, and then Unpack of the archive that it wrote.
use vire_fs.Base.{
  Bool, true, false, Option, none, some, List, [], ◌∷◌, ◌++◌, map, ◌≡◌, ◌≢◌, refl, sym, ap, ◌∙◌,
  All, Option-cases, Bool-cases, inl, inr, arith,
}
use vire_fs.Bytes.{Bytes, slash, equal, equal_iff, equal_refl, is_empty, has_suffix, join}
use vire_fs.Bytes.Segments.{NoSlash, join-ne-nil}
use vire_fs.GoPath.Laws.{IsName}
use vire_fs.Errors.{ok, ok-injective}
use vire_fs.Effect.{Action, Context}
use vire_fs.Fs.{Fs, PutOption}
use vire_fs.Fs.Contents.{Contents}
use vire_fs.Key.{clean_key}
use vire_fs.Key.Laws.{clean_key-IsKey, clean_key_of_IsKey}
use vire_fs.Zip.{ZipFile, below}
use vire_fs.Zip.Archive.{ZipWriter, pack, unpack}
use vire_fs.Zip.Contents.{Opens, PutsBelow, writes, last_file, last_file-none, unpack-last_file}
use vire_fs.Zip.Written.{Entries, Packing, Packed, pack-Packed}

-- `FileInfo().IsDir()` of an entry goes by the end of its name.
abbrev pub ends_slash : Bytes → Bool
ends_slash name = has_suffix name (slash ∷ [])

-- What the reader of archives gives for an archive with these entries: a file for each, in their
-- order, with its name, whose data can be read.
pub record ReadsBack {W : Type 0} (to : Contents W) (data_of : ZipFile W → Bytes) (es : Entries)
    (files : List (ZipFile W)) : Type 0 where
  pub entries : map (λ f. (f.name, data_of f)) files ≡ es
  pub dirs : All (λ f. f.is_dir ≡ ends_slash f.name) files
  pub opens : All (Opens to data_of) files

ends_slash_of_NoSlash : (s : Bytes) → NoSlash s → ends_slash s ≡ false
unfolding equal
ends_slash_of_NoSlash [] _ = refl
ends_slash_of_NoSlash (c ∷ []) (p, _) = ground arith
ends_slash_of_NoSlash (c ∷ d ∷ s) (p, h) = ground (arith, ends_slash_of_NoSlash (d ∷ s) h)

ends_slash-append : (s r : Bytes) → r ≢ [] → ends_slash (s ++ (slash ∷ r)) ≡ ends_slash r
unfolding equal
ends_slash-append s [] proper = absurd (proper refl)
ends_slash-append [] (d ∷ r) _ = ground arith
ends_slash-append (x ∷ []) (d ∷ r) _ = ground arith
ends_slash-append (x ∷ y ∷ s) (d ∷ r) proper =
    ground (arith, ends_slash-append (y ∷ s) (d ∷ r) proper)

-- A clean key does not end in a slash.
ends_slash-join : (segs : List Bytes) → All IsName segs → ends_slash (join segs) ≡ false
unfolding equal
ends_slash-join [] _ = refl
ends_slash-join (s ∷ []) (n, _) = ends_slash_of_NoSlash s n.no_slash
ends_slash-join (s ∷ t ∷ segs) (_, (n, names)) =
    ends_slash-append s (join (t ∷ segs)) (join-ne-nil t segs n.not_empty)
    ∙ ends_slash-join (t ∷ segs) (n, names)

is_empty-eq-true : (s : Bytes) → is_empty s ≡ true → s ≡ []
is_empty-eq-true [] e = refl
is_empty-eq-true (c ∷ s) e = cc

module _ {W : Type 0} (held : Bytes → Option Bytes) (data_of : ZipFile W → Bytes) where
  -- A file of the archive that holds what the store holds.
  abbrev pub Faithful : ZipFile W → Type 0
  Faithful f =
      (clean_key f.name ≡ ok f.name) × (f.is_dir ≡ false) × (held f.name ≡ some (data_of f))

  writes-Faithful :
      (k : Bytes) (f : ZipFile W) → Faithful f → writes k f ≡ true → held k ≡ some (data_of f)
  writes-Faithful k f (clean, file, there) it =
      let same : k ≡ f.name = (equal_iff k f.name).0 (ground (arith, rw (file, clean) at it)) in
      ap held same ∙ there

  last_file-Faithful :
      (k : Bytes) (files : List (ZipFile W)) {f : ZipFile W}
      → All Faithful files
      → last_file k files ≡ some f
      → held k ≡ some (data_of f)
  last_file-Faithful k [] _ is = cc
  last_file-Faithful k (g ∷ files) {f} (faithful, others) is =
      elim (Option-cases (last_file k files)) [
        | inr (f', later) ↦ last_file-Faithful k files others (later ∙ cc (rw later at is))
        | inl never ↦ elim (Bool-cases (writes k g)) [
          | inr other ↦ cc (rw (never, other) at is)
          | inl it ↦
              writes-Faithful k g faithful it
              ∙ ap (λ x. some (data_of x)) (cc (rw (never, it) at is))
        ]
      ]

  writes-own : (f : ZipFile W) → Faithful f → f.name ≢ [] → writes f.name f ≡ true
  writes-own f (clean, file, _) proper = elim (Bool-cases (is_empty f.name)) [
    | inl empty ↦ absurd (proper (is_empty-eq-true f.name empty))
    | inr named ↦ rw (file, clean, named, equal_refl f.name)
  ]

  named_in-last_file :
      (k : Bytes) (files : List (ZipFile W)) (es es' : Entries) (b : Bytes)
      → k ≢ []
      → All Faithful files
      → map (λ f. (f.name, data_of f)) files ≡ es ++ ((k, b) ∷ es')
      → last_file k files ≢ none
  named_in-last_file k [] [] es' b proper _ e never = cc
  named_in-last_file k [] (_ ∷ es) es' b proper _ e never = cc
  named_in-last_file k (f ∷ files) [] es' b proper (faithful, _) e never =
      let (_, other) = last_file-none k f files never in
      let name : f.name ≡ k = cc e in
      let own = writes-own f faithful (λ empty. proper (sym name ∙ empty)) in
      cc (sym own ∙ ap (λ n. writes n f) name ∙ other)
  named_in-last_file k (f ∷ files) (_ ∷ es) es' b proper (_, others) e never =
      named_in-last_file k files es es' b proper others (cc e) (last_file-none k f files never).0

  pub all-Faithful :
      (files : List (ZipFile W)) (keys : List Bytes) (es : Entries)
      → Packed held keys es
      → map (λ f. (f.name, data_of f)) files ≡ es
      → All (λ f. f.is_dir ≡ ends_slash f.name) files
      → All Faithful files
  all-Faithful [] keys es packed e _ = tt
  all-Faithful (f ∷ files) keys [] packed e _ = cc
  all-Faithful (f ∷ files) [] (_ ∷ es) packed e _ = elim packed [ ]
  all-Faithful (f ∷ files) (raw ∷ keys) ((name, b) ∷ es) (clean, there, packed) e (dir, dirs) =
      let same : f.name ≡ name = cc e in
      let holds : data_of f ≡ b = cc e in
      let key = clean_key-IsKey raw clean in
      (
        (
          ap clean_key same ∙ clean_key_of_IsKey key ∙ ap ok (sym same),
          dir ∙ ap ends_slash (same ∙ key.joined) ∙ ends_slash-join key.segments key.named,
          ap held same ∙ there ∙ ap some (sym holds),
        ),
        all-Faithful files keys es packed (cc e) dirs,
      )

-- Among the entries is one for each key.
Packed-middle :
    (held : Bytes → Option Bytes) (before after : List Bytes) (raw : Bytes) {k : Bytes}
    (es : Entries)
    → Packed held (before ++ (raw ∷ after)) es
    → clean_key raw ≡ ok k
    → (l r : Entries) × (b : Bytes) × (es ≡ l ++ ((k, b) ∷ r))
Packed-middle held [] after raw [] packed clean = elim packed [ ]
Packed-middle held [] after raw ((name, b) ∷ es) (clean', _, _) clean =
    ([], es, b, ap (λ n. (n, b) ∷ es) (ok-injective (sym clean' ∙ clean)))
Packed-middle held (_ ∷ before) after raw [] packed clean = elim packed [ ]
Packed-middle held (_ ∷ before) after raw (e ∷ es) (_, _, packed) clean =
    let (l, r, b, same) = Packed-middle held before after raw es packed clean in
    (e ∷ l, r, b, ap (λ t. e ∷ t) same)

-- What Pack writes of a store, Unpack puts under its prefix in the destination: if both succeed,
-- the destination holds below the prefix, at the clean form of each key that was packed, what the
-- store held there when Pack began. The packed keys are valid in the store, whose readers give what
-- it holds, the destination stores what it is given, the archive is new, and the reader of archives
-- gives what its writer has written.
pub pack-unpack :
    {W : Type 0} {IsValid : Bytes → Type 0} {from : Contents W} {written : W → Entries}
    (to : Contents W) (data_of : ZipFile W → Bytes) (ctx : Context W) (src dst : Fs W)
    (zw : ZipWriter W) (new_reader : Action W (List (ZipFile W))) (files : List (ZipFile W))
    (opts : List PutOption) (prefix p : Bytes) (before after : List Bytes) (raw k : Bytes)
    (w v u x : W)
    → Packing IsValid from written ctx src zw
    → PutsBelow to ctx dst opts p
    → All (λ key. (c : Bytes) → clean_key key ≡ ok c → IsValid c) (before ++ (raw ∷ after))
    → clean_key prefix ≡ ok p
    → clean_key raw ≡ ok k
    → k ≢ []
    → written w ≡ []
    → pack ctx src zw (before ++ (raw ∷ after)) w ≡ (ok tt, v)
    → ReadsBack to data_of (written v) files
    → new_reader v ≡ (ok files, u)
    → unpack ctx dst opts new_reader prefix v ≡ (ok tt, x)
    → to x (below p k) ≡ from w k
pack-unpack {from} to data_of ctx src dst zw new_reader files opts prefix p before after raw k w v u
      x packing puts valid at clean proper new packed reads opened done =
    let keys = before ++ (raw ∷ after) in
    let (es, entries, all) = pack-Packed packing keys w v valid packed in
    let written_es = reads.entries ∙ all ∙ ap (λ l. l ++ es) new in
    let faithful = all-Faithful (from w) data_of files keys es entries written_es reads.dirs in
    let (l, r, b, split) = Packed-middle (from w) before after raw es entries clean in
    elim (Option-cases (last_file k files)) [
      | inl never ↦ absurd (
          named_in-last_file (from w) data_of k files l r b proper faithful (written_es ∙ split)
            never)
      | inr (f, is) ↦
          unpack-last_file to data_of ctx dst opts new_reader prefix files v u x k puts reads.opens
            at opened is done
          ∙ sym (last_file-Faithful (from w) data_of k files faithful is)
    ]
