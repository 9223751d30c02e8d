-- ===== src/Tests/ArchiveTests.antt =====
-- Pack and Unpack around an archive in memory. The world is a store's contents and the archive.
use vire_fs.Base.{All, none, some, List, [], ◌∷◌, map, ◌≡◌, refl, sym, ap, ◌∙◌}
use vire_fs.Bytes.{Bytes, codes, equal}
use vire_fs.GoPath.{clean}
use vire_fs.Dict.{lookup, insert}
use vire_fs.Errors.{ok, ok-injective}
use vire_fs.Fs.{ReadCloser, Reader, PutOption}
use vire_fs.Fs.Contents.{Keeps}
use vire_fs.Key.{clean_key}
use vire_fs.Zip.{ZipFs, build_index, get}
use vire_fs.Zip.Open.{as_fs}
use vire_fs.Zip.Store.{NotSupported, as_fs-IsStore_of_archive, get-pack}
use vire_fs.Zip.Store
use vire_fs.Fs.Store.{IsStore}
use vire_fs.Key.Laws.{IsKey, clean_key-IsKey}
use vire_fs.Tests.Shelf.{
  Shelf, on_shelf, always, reader_of, shelf, writer, file_of, new_reader, data_of, shelf-Packing,
  shelf-PutsBelow, file_of-Opens,
}
use vire_fs.Zip.Archive.{pack, pack_keys, unpack, unpack_files}
use vire_fs.Zip.Contents.{Opens}
use vire_fs.Zip.Written.{Entries}
use vire_fs.Zip.RoundTrip.{ReadsBack, pack-unpack}

abbrev start : Shelf
start = ((codes "a", codes "1") ∷ (codes "d/x", codes "2") ∷ [], [])

abbrev two : Entries
two = (codes "d/x", codes "2") ∷ (codes "a", codes "1") ∷ []

abbrev two_keys : List Bytes
two_keys = codes "d//x" ∷ codes "/a" ∷ []

packed : pack always shelf writer two_keys start ≡ (ok tt, (start.0, two))
unfolding pack pack_keys clean_key clean equal lookup
packed = refl

abbrev end : Shelf
end = (
  (codes "a", codes "1")
      ∷ (codes "d/x", codes "2")
      ∷ (codes "out/d/x", codes "2")
      ∷ (codes "out/a", codes "1")
      ∷ [],
  two,
)

unpacked : unpack always shelf [] new_reader (codes "out/") (start.0, two) ≡ (ok tt, end)
unfolding unpack unpack_files clean_key clean equal lookup insert
unpacked = refl

read_back : ReadsBack on_shelf data_of two (map file_of two)
read_back = record {
  entries = refl;
  dirs = (refl, (refl, tt));
  opens = (file_of-Opens (codes "d/x", codes "2"), (file_of-Opens (codes "a", codes "1"), tt));
}

clean_out : clean_key (codes "out/") ≡ ok (codes "out")
unfolding clean_key clean equal
clean_out = refl

clean_a : clean_key (codes "/a") ≡ ok (codes "a")
unfolding clean_key clean equal
clean_a = refl

clean_d : clean_key (codes "d//x") ≡ ok (codes "d/x")
unfolding clean_key clean equal
clean_d = refl

pack-unpack_example : on_shelf end (codes "out/d/x") ≡ on_shelf start (codes "d/x")
pack-unpack_example =
    pack-unpack on_shelf data_of always shelf shelf writer new_reader (map file_of two) []
      (codes "out/") (codes "out") [] (codes "/a" ∷ []) (codes "d//x") (codes "d/x") start
      (start.0, two) (start.0, two) end shelf-Packing shelf-PutsBelow
      ((λ c e. tt), ((λ c e. tt), tt)) clean_out clean_d (λ e. cc) refl packed read_back refl
      unpacked

-- The view of the archive as a store does not depend on the world.
reads_entry :
    (e : Bytes × Bytes) → Opens (Store.archived data_of (map file_of two)) data_of (file_of e)
reads_entry (name, b) rc w v h = record {
  calm = λ q. refl;
  reads = λ u c e.
      let reader : reader_of b ≡ rc = ok-injective (ap (λ y. y.0) h) in
      ap (λ y. y.0) (sym e ∙ ap (λ (r : ReadCloser Shelf). (r.read u).0) (sym reader));
  keeps = λ u q. refl;
  closes = λ u q. refl;
}

two_open : All (Opens (Store.archived data_of (map file_of two)) data_of) (map file_of two)
two_open = (reads_entry (codes "d/x", codes "2"), (reads_entry (codes "a", codes "1"), tt))

two_back : ReadsBack (Store.archived data_of (map file_of two)) data_of two (map file_of two)
two_back = record { entries = refl; dirs = (refl, (refl, tt)); opens = two_open }

abbrev opened : ZipFs Shelf
opened = record { files = map file_of two; closer = none; index = build_index (map file_of two) }

as_fs-IsStore_of_archive_example :
    let archive = as_fs (λ e. []) (λ idx. idx) 7 opened in
    IsStore IsKey
      (Keeps (Store.archived data_of (map file_of two)))
      (Store.archived data_of (map file_of two))
      always
      archive
    × ((key : Bytes) (r : Reader Shelf) (opts : List PutOption) (w : Shelf)
        → NotSupported w (archive.put always key r opts w))
    × ((key : Bytes) (w : Shelf) → NotSupported w (archive.delete always key w))
    × (archive.copier ≡ none)
    × (archive.batch_deleter ≡ none)
as_fs-IsStore_of_archive_example =
    as_fs-IsStore_of_archive data_of (map file_of two) opened always (λ e. []) (λ idx. idx) 7 refl
      two_open

key_a : IsKey (codes "a")
key_a = clean_key-IsKey (codes "/a") clean_a

got_a : get opened always (codes "a") end ≡ (ok (reader_of (codes "1")), end)
unfolding get build_index clean_key clean equal lookup insert
got_a = refl

get-pack_example : on_shelf start (codes "a") ≡ some (codes "1")
get-pack_example =
    get-pack data_of (map file_of two) opened always shelf writer two_keys (codes "a") (codes "1")
      (reader_of (codes "1")) start (start.0, two) end end end shelf-Packing
      ((λ c e. tt), ((λ c e. tt), tt)) refl packed two_back refl key_a got_a refl
