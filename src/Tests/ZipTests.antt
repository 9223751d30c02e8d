-- ===== src/Tests/ZipTests.antt =====
-- Archives.
use vire_fs.Base.{
  arith, Option, some, All, subst, sym, ap, Bool, true, false, none, List, [], ◌∷◌, ◌++◌, ◌≡◌, refl,
  map, if◌then◌else◌,
}
use vire_fs.Bytes.{Bytes, codes, has_prefix, equal}
use vire_fs.GoPath.{clean}
use vire_fs.Dict.{lookup, insert}
use vire_fs.Errors.{sentinel, not_supported, ok, err, ok-injective}
use vire_fs.Effect.{Action, pure}
use vire_fs.Fs.{Fs, ReadCloser}
use vire_fs.Zip.Listing.{Lists, list_index-Lists}
use vire_fs.Zip.Open.{as_fs}
use vire_fs.Zip.Sizes.{make_header-stat}
use vire_fs.Zip.Contents.{last_file, Gives, Opens, PutsBelow, unpack-last_file}
use vire_fs.Key.{clean_key}
use vire_fs.Zip.{ZipFile, ZipFs, build_index, list_index, exists}
use vire_fs.Zip.Archive.{ZipWriter, unpack, unpack_files, pack, pack_keys, make_header}
use vire_fs.Zip.Confined.{Below, unpack-agree}
use vire_fs.Tests.Promises.{held, store-Stored}
use vire_fs.Tests.Memory.{World, live, memory}

abbrev entry : Bytes → Bool → Bytes → ZipFile World
entry name is_dir contents = record {
  name = name;
  is_dir = is_dir;
  uncompressed_size = 1;
  modified = 0;
  open_file = λ w. (ok (record { read = λ v. ((contents, none), v); close = λ v. v }), w);
}

abbrev entries : List (ZipFile World)
entries =
    entry (codes "/a") false (codes "1")
    ∷ entry (codes "d/") true []
    ∷ entry (codes "../evil") false (codes "2")
    ∷ entry (codes "a") false (codes "3")
    ∷ entry (codes "d/x") false (codes "4")
    ∷ []

abbrev archive : ZipFs World
archive = record { files = entries; closer = none; index = build_index entries }

abbrev no_type : Bytes → Bytes
no_type e = []

indexed :
    map {B = Bytes × Bytes} (λ kf. (kf.0, kf.1.name)) (build_index entries)
    ≡ (codes "a", codes "a") ∷ (codes "d", codes "d/") ∷ (codes "d/x", codes "d/x") ∷ []
unfolding build_index clean_key clean equal insert
indexed = refl

there : exists archive live (codes "/a") [] ≡ (ok true, [])
unfolding exists build_index clean_key clean equal insert lookup
there = refl

-- The entry of a directory and what is below it are listed apart.
listed_twice :
    map (λ fi. fi.key) (list_index no_type [] (build_index entries) ([], []))
    ≡ codes "a" ∷ codes "d" ∷ codes "d" ∷ []
unfolding build_index clean_key clean equal insert list_index
listed_twice = refl

abbrev disk : Fs World
disk = memory 1 []

abbrev opened : Action World (List (ZipFile World))
opened = pure entries

-- A store that takes keys below out/ only.
abbrev fenced : Fs World
fenced = record disk {
  put = λ ctx key r opts. if has_prefix key (codes "out/") then disk.put ctx key r opts else λ w.
      (err (sentinel not_supported), w);
}

clean_out : clean_key (codes "out/") ≡ ok (codes "out")
unfolding clean_key clean equal
clean_out = refl

disk-fenced : (key : Bytes) → Below (codes "out") key → disk.put live key ≡ fenced.put live key
disk-fenced key h = rw h.joined refl

unpack-agree_example :
    unpack live disk [] opened (codes "out/") ≡ unpack live fenced [] opened (codes "out/")
unpack-agree_example =
    unpack-agree live disk fenced [] (codes "out") disk-fenced opened (codes "out/") clean_out

unpacked :
    unpack live disk [] opened (codes "out/") []
    ≡ (ok tt, (codes "out/a", codes "3") ∷ (codes "out/d/x", codes "4") ∷ [])
unfolding unpack unpack_files clean_key clean equal insert
unpacked = refl

-- A writer that keeps the contents of the entries in the world.
abbrev writer : ZipWriter World
writer = record {
  create_header = λ header w. (ok (λ b v. (ok tt, insert (codes "zip/" ++ header.name) b v)), w);
  close = λ w. (ok tt, w);
}

packed :
    pack live disk writer (codes "/a" ∷ []) ((codes "a", codes "1") ∷ [])
    ≡ (ok tt, (codes "a", codes "1") ∷ (codes "zip/a", codes "1") ∷ [])
unfolding pack pack_keys clean_key clean equal insert lookup
packed = refl

abbrev or_nothing : Option Bytes → Bytes
or_nothing none = []
or_nothing (some b) = b

abbrev data_of : ZipFile World → Bytes
data_of f = or_nothing (
    lookup f.name (
      (codes "/a", codes "1")
      ∷ (codes "a", codes "3")
      ∷ (codes "d/x", codes "4")
      ∷ (codes "../evil", codes "2")
      ∷ []))

abbrev reader_of : Bytes → ReadCloser World
reader_of b = record { read = λ v. ((b, none), v); close = λ v. v }

reader_of-Gives : (b : Bytes) (w : World) → Gives held b w w (reader_of b)
reader_of-Gives b w = record {
  calm = λ q. refl;
  reads = λ u c e. ap (λ y. y.0) (sym e);
  keeps = λ v q. refl;
  closes = λ v q. refl;
}

entry-Opens :
    (name : Bytes) (is_dir : Bool) (b : Bytes)
    → data_of (entry name is_dir b) ≡ b
    → Opens held data_of (entry name is_dir b)
entry-Opens name is_dir b e rc w v h =
    subst (λ c. Gives held c w v rc) (sym e)
      (subst (Gives held b w v) (ok-injective (ap (λ y. y.0) h))
        (subst (λ u. Gives held b w u (reader_of b)) (ap (λ y. y.1) h) (reader_of-Gives b w)))

all_open : All (Opens held data_of) entries
unfolding lookup equal
all_open = (
  entry-Opens (codes "/a") false (codes "1") refl,
  (
    entry-Opens (codes "d/") true [] refl,
    (
      entry-Opens (codes "../evil") false (codes "2") refl,
      (
        entry-Opens (codes "a") false (codes "3") refl,
        (entry-Opens (codes "d/x") false (codes "4") refl, tt),
      ),
    ),
  ),
)

disk-PutsBelow : PutsBelow held live disk [] (codes "out")
disk-PutsBelow key r w v at still h = store-Stored key r w v (r w) still refl h

last_a : last_file (codes "a") entries ≡ some (entry (codes "a") false (codes "3"))
unfolding clean_key clean equal
last_a = refl

unpack-last_file_example :
    held ((codes "out/a", codes "3") ∷ (codes "out/d/x", codes "4") ∷ []) (codes "out/a")
    ≡ some (codes "3")
unfolding lookup equal
unpack-last_file_example =
    unpack-last_file held data_of live disk [] opened (codes "out/") entries [] []
      ((codes "out/a", codes "3") ∷ (codes "out/d/x", codes "4") ∷ []) (codes "a") disk-PutsBelow
      all_open clean_out refl last_a unpacked

clean_a : clean_key (codes "/a") ≡ ok (codes "a")
unfolding clean_key clean equal
clean_a = refl

indexed_a : lookup (codes "a") archive.index ≡ some (entry (codes "a") false (codes "3"))
unfolding build_index clean_key clean equal insert lookup
indexed_a = refl

make_header-stat_example :
    make_header live (as_fs no_type (λ idx. idx) 1 archive) writer (codes "/a") []
    ≡ (ok (record { name = codes "/a"; uncompressed_size = 1; modified = 0 }), [])
make_header-stat_example =
    make_header-stat no_type (λ idx. idx) 1 archive writer live (codes "/a") [] clean_a indexed_a
      (omega arith)

list_index-Lists_example :
    Lists no_type
      (codes "d")
      []
      (build_index entries)
      (list_index no_type (codes "d") (build_index entries) ([], []))
list_index-Lists_example = list_index-Lists no_type (codes "d") (build_index entries)
