-- ===== src/Zip/Archive.antt =====
-- plugin/zip: `Pack` and `Unpack`. The reader and the writer of archives are those of archive/zip.
use vire_fs.Base.{ℕ, List, [], ◌∷◌, if◌then◌else◌}
use vire_fs.Base.Int.{to_uint64}
use vire_fs.Bytes.{Bytes, is_empty}
use vire_fs.Errors.{Result, ok, err}
use vire_fs.Effect.{Action, Context, pure, ◌>>=◌, ◌>>◌, lift, check, deferred}
use vire_fs.Fs.{Fs, FileInfo, PutOption, Time, io_copy}
use vire_fs.Key.{clean_key}
use vire_fs.Zip.{ZipFile, below}

-- `zip.FileHeader`; the method is always Deflate.
pub record FileHeader : Type 0 where
  pub name : Bytes
  pub uncompressed_size : ℕ
  pub modified : Time

-- `zip.Writer`: an entry is what takes its bytes.
pub record ZipWriter (W : Type 0) : Type 0 where
  pub create_header : FileHeader → Action W (Bytes → Action W (Unit {0}))
  pub close : Action W (Unit {0})

module _ {W : Type 0} (ctx : Context W) where
  module _ (fsys : Fs W) (zw : ZipWriter W) where
    -- The size and the time are left at zero if Stat fails.
    abbrev pub header_of : Bytes → Result FileInfo × W → FileHeader × W
    header_of key (ok info, w) = (
      record { name = key; uncompressed_size = to_uint64 info.size; modified = info.last_modified },
      w,
    )
    header_of key (err e, w) = (record { name = key; uncompressed_size = 0; modified = 0 }, w)

    abbrev pub make_header : Bytes → Action W FileHeader
    make_header key w = let (h, v) = header_of key (fsys.stat ctx key w) in (ok h, v)

    unfoldable pub pack_keys : List Bytes → Action W (Unit {0})
    pack_keys [] = pure tt
    pack_keys (raw ∷ keys) = do
      check ctx
      key ← lift (clean_key raw)
      header ← make_header key
      ew ← zw.create_header header
      rc ← fsys.get ctx key
      deferred rc.close (io_copy ew rc.read)
      pack_keys keys

    -- The deferred close, whose error is returned if there was none before it.
    abbrev pub close_after : Result (Unit {0}) × W → Result (Unit {0}) × W
    close_after (ok u, w) = zw.close w
    close_after (err e, w) = (err e, (zw.close w).1)

    unfoldable pub pack : List Bytes → Action W (Unit {0})
    unfolding pack_keys
    pack keys w = close_after (pack_keys keys w)

  module _ (dst : Fs W) (opts : List PutOption) where
    -- Writing one entry under the given key.
    abbrev pub extract : Bytes → ZipFile W → Action W (Unit {0})
    extract dst_key f = do rc ← f.open_file; deferred rc.close (dst.put ctx dst_key rc.read opts)

    -- An entry whose name is no key is skipped.
    abbrev pub extract_as : Bytes → Result Bytes → ZipFile W → Action W (Unit {0})
    extract_as prefix (err e) f = pure tt
    extract_as prefix (ok name) f = if is_empty name then pure tt else extract (below prefix name) f

    abbrev pub extract_file : Bytes → ZipFile W → Action W (Unit {0})
    extract_file prefix f = if f.is_dir then pure tt else extract_as prefix (clean_key f.name) f

    unfoldable pub unpack_files : Bytes → List (ZipFile W) → Action W (Unit {0})
    unpack_files prefix [] = pure tt
    unpack_files prefix (f ∷ files) = do check ctx; extract_file prefix f; unpack_files prefix files

    -- `new_reader` is `zip.NewReader(r, size)`.
    unfoldable pub unpack : Action W (List (ZipFile W)) → Bytes → Action W (Unit {0})
    unfolding unpack_files
    unpack new_reader prefix = do
      files ← new_reader
      cleaned ← lift (clean_key prefix)
      unpack_files cleaned files
