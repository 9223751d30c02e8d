-- ===== src/Zip/Sizes.antt =====
-- The sizes of an archive's entries, as they come out of one archive and go into another.
use vire_fs.Base.{ℕ, some, ◌<◌, ◌≡◌, ap}
use vire_fs.Base.Int.{word, to_uint64-to_int64}
use vire_fs.Bytes.{Bytes}
use vire_fs.Dict.{lookup}
use vire_fs.Errors.{ok}
use vire_fs.Effect.{Context}
use vire_fs.Key.{clean_key}
use vire_fs.Zip.{ZipFile, ZipFs, Index, stat}
use vire_fs.Zip.Open.{as_fs}
use vire_fs.Zip.Archive.{ZipWriter, make_header}

-- An entry that Pack takes from an archive has the size in its header that it had there, though
-- Stat gives it as an `int64` in between: every 64-bit size comes back, also one of 2^63 or more,
-- which Stat gives as a negative number. So does the time.
pub make_header-stat :
    {W : Type 0} (type_by_extension : Bytes → Bytes) (order : Index W → Index W) (identity : ℕ)
    (z : ZipFs W) (zw : ZipWriter W) (ctx : Context W) (key : Bytes) {cleaned : Bytes}
    {f : ZipFile W} (w : W)
    → clean_key key ≡ ok cleaned
    → lookup cleaned z.index ≡ some f
    → f.uncompressed_size < word
    → make_header ctx (as_fs type_by_extension order identity z) zw key w ≡ (
      ok (record { name = key; uncompressed_size = f.uncompressed_size; modified = f.modified }),
      w,
    )
unfolding as_fs stat
make_header-stat type_by_extension order identity z zw ctx key {cleaned} {f} w clean there small =
    rw (clean, there)
      (ap (λ (n : ℕ). (ok (record { name = key; uncompressed_size = n; modified = f.modified }), w))
        (to_uint64-to_int64 f.uncompressed_size small))
