-- ===== src/Zip/Confined.antt =====
-- Unpack writes below its prefix only.
use vire_fs.Base.{false, List, [], ◌∷◌, Bool-cases, inl, inr, ◌≡◌, refl, ap}
use vire_fs.Bytes.{Bytes, is_empty}
use vire_fs.Errors.{ok, Result-cases}
use vire_fs.Effect.{Action, Context, ◌>>=◌, deferred}
use vire_fs.Fs.{Fs, PutOption}
use vire_fs.Key.{clean_key}
use vire_fs.Key.Laws.{IsKey, clean_key-IsKey}
use vire_fs.Zip.{ZipFile, below}
use vire_fs.Zip.Archive.{extract, extract_file, unpack_files, unpack}

-- The key is a name in normal form, appended to the prefix.
pub record Below (prefix key : Bytes) : Type 0 where
  pub name : Bytes
  pub joined : key ≡ below prefix name
  pub normal : IsKey name
  pub not_empty : is_empty name ≡ false

module _ {W : Type 0} (ctx : Context W) (dst dst' : Fs W) (opts : List PutOption) (p : Bytes)
    (agree : (key : Bytes) → Below p key → dst.put ctx key ≡ dst'.put ctx key) where
  extract-agree :
      (key : Bytes) (f : ZipFile W)
      → Below p key
      → extract ctx dst opts key f ≡ extract ctx dst' opts key f
  extract-agree key f h =
      ap (λ put. f.open_file >>= λ rc. deferred rc.close (put rc.read opts)) (agree key h)

  extract_file-agree :
      (f : ZipFile W) → extract_file ctx dst opts p f ≡ extract_file ctx dst' opts p f
  extract_file-agree f = elim (Result-cases (clean_key f.name)) [
    | inr (e, bad) ↦ rw bad refl
    | inl (name, good) ↦ elim (Bool-cases (is_empty name)) [
      | inl empty ↦ rw (good, empty) refl
      | inr proper ↦
          rw
            (
              good,
              proper,
              extract-agree (below p name) f (record {
                name = name;
                joined = refl;
                normal = clean_key-IsKey f.name good;
                not_empty = proper;
              }),
            )
            refl
    ]
  ]

  unpack_files-agree :
      (files : List (ZipFile W))
      → unpack_files ctx dst opts p files ≡ unpack_files ctx dst' opts p files
  unfolding unpack_files
  unpack_files-agree [] = refl
  unpack_files-agree (f ∷ files) = rw (extract_file-agree f, unpack_files-agree files) refl

  -- Unpack uses a destination only to Put below the clean prefix, at names in normal form: with
  -- two destinations that agree there, it does the same, however they differ elsewhere.
  pub unpack-agree :
      (new_reader : Action W (List (ZipFile W))) (prefix : Bytes)
      → clean_key prefix ≡ ok p
      → unpack ctx dst opts new_reader prefix ≡ unpack ctx dst' opts new_reader prefix
  unfolding unpack
  unpack-agree new_reader prefix e =
      rw e (ap (λ rest. new_reader >>= rest) (λ i files. unpack_files-agree files i))
