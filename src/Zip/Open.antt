-- ===== src/Zip/Open.antt =====
-- plugin/zip/zipfs.go: opening an archive, and the archive as a store of the interface. Package os,
-- `zip.NewReader` and the order of a map are parameters.
use vire_fs.Base.{ℕ, none, some, List, length}
use vire_fs.Base.Int.{ℤ, to_int64}
use vire_fs.Bytes.{Bytes}
use vire_fs.Effect.{Action, pure, ◌>>=◌, on_error}
use vire_fs.Fs.{Fs}
use vire_fs.Zip.{
  ZipFile, ZipFs, Index, build_index, new_fs, get, put, delete, list, stat, exists, access,
}

-- `*os.File`, as far as OpenFS uses it: the size that Stat gives, and Close.
pub record OsFile (W : Type 0) : Type 0 where
  pub size : Action W ℤ
  pub close : Action W (Unit {0})

module _ {W : Type 0} where
  abbrev pub closing : {A : Type 0} → OsFile W → Action W A → Action W A
  closing f m w = on_error (λ v. (f.close v).1) (m w)

  abbrev pub opened_fs : OsFile W → List (ZipFile W) → Action W (ZipFs W)
  opened_fs f files =
      pure (record { files = files; closer = some f.close; index = build_index files })

  unfoldable pub open_fs :
      (Bytes → Action W (OsFile W))
      → (OsFile W → ℤ → Action W (List (ZipFile W)))
      → Bytes
      → Action W (ZipFs W)
  open_fs open_file new_reader file_path = do
    f ← open_file file_path
    size ← closing f f.size
    files ← closing f (new_reader f size)
    opened_fs f files

  -- The parameter is `zip.NewReader` on a reader of the bytes.
  abbrev pub new_fs_from_bytes :
      (Bytes → ℤ → Action W (List (ZipFile W))) → Bytes → Action W (ZipFs W)
  new_fs_from_bytes new_reader bytes = new_fs (new_reader bytes (to_int64 (length bytes)))

-- None of the optional interfaces is implemented.
unfoldable pub as_fs : {W : Type 0} → (Bytes → Bytes) → (Index W → Index W) → ℕ → ZipFs W → Fs W
as_fs type_by_extension order identity z = record {
  identity = identity;
  get = get z;
  put = put z;
  delete = delete z;
  list = list type_by_extension order z;
  stat = stat type_by_extension z;
  access = access z;
  exists = exists z;
  copier = none;
  batch_deleter = none;
}
