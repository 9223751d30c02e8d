-- ===== src/Zip/Store.antt =====
-- An archive as a store of the interface, which nothing can be put into.
use vire_fs.Base.{
  ℕ, true, Option, none, some, List, [], ◌∷◌, ◌++◌, ◌≡◌, refl, sym, ap, ◌∙◌, All, Option-cases,
  Bool-cases, inl, inr, subst, arith,
}
use vire_fs.Bytes.{Bytes, equal_iff}
use vire_fs.Dict.{lookup}
use vire_fs.Errors.{Error, Result, ok, err, op_error, errors_is, not_supported}
use vire_fs.Effect.{Context, map_error-eq-ok}
use vire_fs.Fs.{Fs, Reader, ReadCloser, PutOption}
use vire_fs.Fs.Contents.{Contents, Keeps}
use vire_fs.Fs.Store.{IsStore}
use vire_fs.Key.{clean_key}
use vire_fs.Key.Laws.{IsKey, clean_key_of_IsKey}
use vire_fs.Zip.{ZipFile, ZipFs, Index, build_index, get, put, delete}
use vire_fs.Zip.Open.{as_fs}
use vire_fs.Zip.Archive.{ZipWriter, pack}
use vire_fs.Zip.Written.{Entries, Packing, pack-Packed}
use vire_fs.Zip.RoundTrip.{ReadsBack, Faithful, all-Faithful}
use vire_fs.Zip.Index.{is_named, last_named, lookup-build_index}
use vire_fs.Zip.Contents.{Opens}

abbrev pub map_data : {W : Type 0} → (ZipFile W → Bytes) → Option (ZipFile W) → Option Bytes
map_data data_of none = none
map_data data_of (some f) = some (data_of f)

-- At each key the data of the last entry whose name is cleaned to it.
abbrev pub archived : {W : Type 0} → (ZipFile W → Bytes) → List (ZipFile W) → Contents W
archived data_of files w key = map_data data_of (last_named key files)

last_named-All :
    {W : Type 0} (P : ZipFile W → Type 0) (k : Bytes) (files : List (ZipFile W)) {f : ZipFile W}
    → All P files
    → last_named k files ≡ some f
    → P f × (is_named k (clean_key f.name) ≡ true)
last_named-All P k [] all is = cc
last_named-All {W} P k (g ∷ files) {f} (here, there) is = elim (Option-cases (last_named k files)) [
  | inr (f', later) ↦ last_named-All P k files there (later ∙ cc (rw later at is))
  | inl never ↦ elim (Bool-cases (is_named k (clean_key g.name))) [
    | inr other ↦ cc (rw (never, other) at is)
    | inl it ↦
        subst (λ (x : ZipFile W). P x × (is_named k (clean_key x.name) ≡ true))
          (cc (rw (never, it) at is)) (here, it)
  ]
]

module _ {W : Type 0} (data_of : ZipFile W → Bytes) (files : List (ZipFile W)) (z : ZipFs W)
    (indexed : z.index ≡ build_index files) (ctx : Context W) where
  -- A Get that succeeds has opened the entry of the key.
  get-eq-ok :
      (key : Bytes) (rc : ReadCloser W) (w v : W)
      → IsKey key
      → get z ctx key w ≡ (ok rc, v)
      → (f : ZipFile W) × (last_named key files ≡ some f) × (f.open_file w ≡ (ok rc, v))
  unfolding get
  get-eq-ok key rc w v k h =
      let named : lookup key z.index ≡ last_named key files =
        ap (lookup key) indexed ∙ lookup-build_index key files in
      elim (Option-cases (last_named key files)) [
        | inl never ↦ cc (rw (clean_key_of_IsKey k, named, never) at h)
        | inr (f, is) ↦ (
          f,
          is,
          map_error-eq-ok (op_error "Get" key) f.open_file w
              (rw (clean_key_of_IsKey k, named, is) at h),
        )
      ]

-- An operation that ends in the world where it began, with an error that is ErrNotSupported.
pub data NotSupported {W A : Type 0} (w : W) : Result A × W → Type 0 where
  refused : {e : Error} → errors_is e not_supported ≡ true → NotSupported w (err e, w)

-- An archive whose entries can be read keeps the promises of a store for keys in normal form. It
-- holds at each key the data of the last entry whose name is cleaned to it. Put and Delete end with
-- ErrNotSupported at every key and change nothing, and there is no copy or batch delete of its own.
pub as_fs-IsStore_of_archive :
    {W : Type 0} (data_of : ZipFile W → Bytes) (files : List (ZipFile W)) (z : ZipFs W)
    (ctx : Context W) (type_by_extension : Bytes → Bytes) (order : Index W → Index W) (identity : ℕ)
    → z.index ≡ build_index files
    → All (Opens (archived data_of files) data_of) files
    → let archive = as_fs type_by_extension order identity z in
      IsStore IsKey (Keeps (archived data_of files)) (archived data_of files) ctx archive
      × ((key : Bytes) (r : Reader W) (opts : List PutOption) (w : W)
          → NotSupported w (archive.put ctx key r opts w))
      × ((key : Bytes) (w : W) → NotSupported w (archive.delete ctx key w))
      × (archive.copier ≡ none)
      × (archive.batch_deleter ≡ none)
unfolding as_fs put delete
as_fs-IsStore_of_archive {W} data_of files z ctx type_by_extension order identity indexed opens = (
  record {
    on_get = λ key rc w v k h.
        let (f, is, opened) = get-eq-ok data_of files z indexed ctx key rc w v k h in
        let (open_f, _) = last_named-All (Opens held data_of) key files opens is in
        let g = open_f rc w v opened in
        (
          (λ q. refl),
          record {
            reads = λ u b same e. rw is (ap some (sym (g.reads u b e)));
            keeps = λ u q. refl;
            closes = λ u q. refl;
          },
        );
    on_put = λ key r opts w v k still h. cc;
    on_delete = λ key w k q ne. refl;
    deleted = λ key w v k h. cc;
    on_copy = λ native src_key dst_key w v has. cc;
  },
  (λ key r opts w. refused refl),
  (λ key w. refused refl),
  refl,
  refl,
)
  where
    held : Contents W
    held = archived data_of files

-- What Pack wrote, the archive opened as a store gives back: a Get of it that succeeds, at a key in
-- normal form, reads what the packed store held there when Pack began. The packed keys are valid in
-- that store, whose readers give what it holds, the archive is new, and the reader of archives
-- gives what its writer has written.
pub get-pack :
    {W : Type 0} {IsValid : Bytes → Type 0} {from : Contents W} {written : W → Entries}
    (data_of : ZipFile W → Bytes) (files : List (ZipFile W)) (z : ZipFs W) (ctx : Context W)
    (src : Fs W) (zw : ZipWriter W) (keys : List Bytes) (key b : Bytes) (rc : ReadCloser W)
    (w v u x y : W)
    → Packing IsValid from written ctx src zw
    → All (λ k. (c : Bytes) → clean_key k ≡ ok c → IsValid c) keys
    → written w ≡ []
    → pack ctx src zw keys w ≡ (ok tt, v)
    → ReadsBack (archived data_of files) data_of (written v) files
    → z.index ≡ build_index files
    → IsKey key
    → get z ctx key u ≡ (ok rc, x)
    → (rc.read y).0 ≡ (b, none)
    → from w key ≡ some b
get-pack {from} data_of files z ctx src zw keys key b rc w v u x y packing valid new packed reads
      indexed k got read =
    let (es, entries, all) = pack-Packed packing keys w v valid packed in
    let faithful =
      all-Faithful (from w) data_of files keys es entries
        (reads.entries ∙ all ∙ ap (λ l. l ++ es) new) reads.dirs in
    let (f, is, opened) = get-eq-ok data_of files z indexed ctx key rc u x k got in
    let ((clean, _, there), named) =
      last_named-All (Faithful (from w) data_of) key files faithful is in
    let (open_f, _) =
      last_named-All (Opens (archived data_of files) data_of) key files reads.opens is in
    let same : key ≡ f.name = (equal_iff key f.name).0 (ground (arith, rw clean at named)) in
    let given : b ≡ data_of f = (open_f rc u x opened).reads y b read in
    ap (from w) same ∙ there ∙ ap some (sym given)
