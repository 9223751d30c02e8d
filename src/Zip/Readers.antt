-- ===== src/Zip/Readers.antt =====
-- The readers that Pack and Unpack open.
use vire_fs.Base.{
  ℕ, Option, none, some, List, [], ◌∷◌, All, ◌≡◌, refl, sym, ap, ◌∙◌, Option-cases, Bool-cases, inl,
  inr,
}
use vire_fs.Bytes.{Bytes, is_empty}
use vire_fs.Errors.{Error, Result, ok, err, Result-cases}
use vire_fs.Effect.{Action, Context, ◌>>=◌, ◌>>◌, lift, check, or_error, deferred}
use vire_fs.Fs.{Fs, FileInfo, Reader, ReadCloser, PutOption, io_copy}
use vire_fs.Fs.Readers.{Opens, Steady, open-deferred, PutsSteady}
use vire_fs.Key.{clean_key}
use vire_fs.Zip.{ZipFile, below}
use vire_fs.Zip.Archive.{
  FileHeader, ZipWriter, header_of, make_header, pack_keys, close_after, pack, extract,
  extract_file, unpack_files, unpack,
}

module _ {W : Type 0} (readers : W → ℕ) where
  -- Steps one after the other.
  bind-Steady :
      {A B : Type 0} (m : Action W A) (f : A → Action W B)
      → Steady readers m
      → ((a : A) (w v : W) → m w ≡ (ok a, v) → readers (f a v).1 ≡ readers v)
      → Steady readers (m >>= f)
  bind-Steady {A} {B} m f steady then_steady w = by_first (m w) refl
    where
      by_first : (x : Result A × W) → m w ≡ x → readers ((m >>= f) w).1 ≡ readers w
      by_first (ok a, v) e = rw e (then_steady a w v e ∙ ap (λ y. readers y.1) (sym e) ∙ steady w)
      by_first (err d, v) e = rw e (ap (λ y. readers y.1) (sym e) ∙ steady w)

  bind-then :
      {A : Type 0} (m : Action W A) (f : A → Action W (Unit {0})) (rest : Action W (Unit {0}))
      (w : W)
      → (m >>= λ a. f a >> rest) w ≡ ((m >>= f) >> rest) w
  bind-then {A} m f rest w = by_first (m w) refl
    where
      by_first : (x : Result A × W) → m w ≡ x → (m >>= λ a. f a >> rest) w ≡ ((m >>= f) >> rest) w
      by_first (ok a, v) e = rw e
      by_first (err d, v) e = rw e

  check-Steady : (ctx : Context W) → Steady readers (check ctx)
  check-Steady ctx w = elim (Option-cases (ctx w)) [
    | inl alive ↦ rw alive
    | inr (e, dead) ↦ rw dead
  ]

  module _ (ctx : Context W) (dst : Fs W) (opts : List PutOption)
      (puts : PutsSteady readers ctx dst) where
    abbrev Openable : ZipFile W → Type 0
    Openable f = Opens readers f.open_file

    extract-Steady :
        (key : Bytes) (f : ZipFile W) → Openable f → Steady readers (extract ctx dst opts key f)
    extract-Steady key f opens =
        open-deferred readers f.open_file (λ rc. dst.put ctx key rc.read opts) opens
          (λ rc w v got. puts key rc.read opts (λ u. opens.on_read rc w v u got))

    extract_file-Steady :
        (prefix : Bytes) (f : ZipFile W)
        → Openable f
        → Steady readers (extract_file ctx dst opts prefix f)
    extract_file-Steady prefix f opens w = elim (Bool-cases f.is_dir) [
      | inl dir ↦ rw dir
      | inr file ↦ elim (Result-cases (clean_key f.name)) [
        | inr (e, bad) ↦ rw (file, bad)
        | inl (name, good) ↦ elim (Bool-cases (is_empty name)) [
          | inl empty ↦ rw (file, good, empty)
          | inr proper ↦ rw (file, good, proper) (extract-Steady (below prefix name) f opens w)
        ]
      ]
    ]

    unpack_files-Steady :
        (prefix : Bytes) (files : List (ZipFile W))
        → All Openable files
        → Steady readers (unpack_files ctx dst opts prefix files)
    unfolding unpack_files
    unpack_files-Steady prefix [] _ w = refl
    unpack_files-Steady prefix (f ∷ files) (opens, more) w =
        bind-Steady (check ctx) _ (check-Steady ctx)
          (λ _ u v _.
            bind-Steady (extract_file ctx dst opts prefix f) _ (extract_file-Steady prefix f opens)
              (λ _ x y _. unpack_files-Steady prefix files more y) v)
          w

    -- However Unpack ends, it leaves as many readers open as there were, if reading the archive's
    -- directory opens none.
    unpack-readers :
        (new_reader : Action W (List (ZipFile W))) (prefix : Bytes)
        → Steady readers new_reader
        → ((files : List (ZipFile W)) (w v : W) → new_reader w ≡ (ok files, v) → All Openable files)
        → Steady readers (unpack ctx dst opts new_reader prefix)
    unfolding unpack
    unpack-readers new_reader prefix steady openable =
        bind-Steady new_reader _ steady (λ files w v read.
          bind-Steady (lift (clean_key prefix)) _ (λ u. refl)
            (λ cleaned u x _. unpack_files-Steady cleaned files (openable files w v read) x) v)

  -- What Pack relies on: Stat and the writer open and close no readers.
  pub record PacksReaders (ctx : Context W) (fsys : Fs W) (zw : ZipWriter W) : Type 0 where
    pub on_stat : (key : Bytes) → Steady readers (fsys.stat ctx key)
    pub on_get : (key : Bytes) → Opens readers (fsys.get ctx key)
    pub on_header : (h : FileHeader) → Steady readers (zw.create_header h)
    pub on_entry :
        (h : FileHeader) (entry : Bytes → Action W (Unit {0})) (b : Bytes) (w v : W)
        → zw.create_header h w ≡ (ok entry, v)
        → Steady readers (entry b)
    pub on_close : Steady readers zw.close

  io_copy-Steady :
      (write : Bytes → Action W (Unit {0})) (read : Reader W)
      → ((b : Bytes) → Steady readers (write b))
      → ((u : W) → readers (read u).1 ≡ readers u)
      → Steady readers (io_copy write read)
  io_copy-Steady write read writes reads w =
      bind-Steady (write (read w).0.0) _ (writes (read w).0.0)
        (λ _ u v _. or_error-Steady (read w).0.1 v) (read w).1
      ∙ reads w
    where
      or_error-Steady : (e : Option Error) (u : W) → readers (or_error e (tt {0}) u).1 ≡ readers u
      or_error-Steady none u = refl
      or_error-Steady (some e) u = refl

  module _ (ctx : Context W) (fsys : Fs W) (zw : ZipWriter W)
      (packs : PacksReaders ctx fsys zw) where
    make_header-Steady : (key : Bytes) → Steady readers (make_header ctx fsys zw key)
    make_header-Steady key w = by_stat (fsys.stat ctx key w) (packs.on_stat key w)
      where
        by_stat :
            (x : Result FileInfo × W)
            → readers x.1 ≡ readers w
            → readers (header_of ctx fsys zw key x).1 ≡ readers w
        by_stat (ok info, v) h = h
        by_stat (err e, v) h = h

    -- The reading of one key into its entry, and what comes after.
    entry-Steady :
        (header : FileHeader) (entry : Bytes → Action W (Unit {0})) (key : Bytes)
        (rest : Action W (Unit {0})) (w v : W)
        → zw.create_header header w ≡ (ok entry, v)
        → Steady readers rest
        → Steady readers
            (fsys.get ctx key >>= λ rc. deferred rc.close (io_copy entry rc.read) >> rest)
    entry-Steady header entry key rest w v created steady u =
        let opens = packs.on_get key in
        let copy_into = λ (rc : ReadCloser W). deferred rc.close (io_copy entry rc.read) in
        ap (λ y. readers y.1) (bind-then (fsys.get ctx key) copy_into rest u)
        ∙ bind-Steady (fsys.get ctx key >>= copy_into) (λ _. rest)
            (open-deferred readers (fsys.get ctx key) (λ rc. io_copy entry rc.read) opens
              (λ rc x y got.
                io_copy-Steady entry rc.read (λ b. packs.on_entry header entry b w v created)
                  (λ z. opens.on_read rc x y z got)))
            (λ _ x y _. steady y) u

    pack_keys-Steady : (keys : List Bytes) → Steady readers (pack_keys ctx fsys zw keys)
    unfolding pack_keys
    pack_keys-Steady [] w = refl
    pack_keys-Steady (raw ∷ keys) w =
        let from_entry = λ (key : Bytes) (entry : Bytes → Action W (Unit {0})).
          fsys.get ctx key >>= λ rc.
          deferred rc.close (io_copy entry rc.read) >> pack_keys ctx fsys zw keys in
        let from_header = λ (key : Bytes) (h : FileHeader). zw.create_header h >>= from_entry key in
        let from_key = λ (key : Bytes). make_header ctx fsys zw key >>= from_header key in
        let rest = pack_keys-Steady keys in
        bind-Steady (check ctx) (λ _. lift (clean_key raw) >>= from_key) (check-Steady ctx)
          (λ _ _ w0 _.
            bind-Steady (lift (clean_key raw)) from_key (λ u. refl)
              (λ key _ w1 _.
                bind-Steady (make_header ctx fsys zw key) (from_header key) (make_header-Steady key)
                  (λ h _ w2 _.
                    bind-Steady (zw.create_header h) (from_entry key) (packs.on_header h)
                      (λ entry x w3 created.
                        entry-Steady h entry key (pack_keys ctx fsys zw keys) x w3 created rest w3)
                      w2)
                  w1)
              w0)
          w

    close_after-Steady :
        (x : Result (Unit {0}) × W) → readers (close_after ctx fsys zw x).1 ≡ readers x.1
    close_after-Steady (ok u, v) = packs.on_close v
    close_after-Steady (err e, v) = packs.on_close v

    -- However Pack ends, it leaves as many readers open as there were, if each Get that succeeds
    -- opens one, which its Close closes, and Stat and the writer open and close none.
    pub pack-readers : (keys : List Bytes) → Steady readers (pack ctx fsys zw keys)
    unfolding pack
    pack-readers keys w =
        close_after-Steady (pack_keys ctx fsys zw keys w) ∙ pack_keys-Steady keys w
