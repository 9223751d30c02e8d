-- ===== src/Tests/Shelf.antt =====
-- A store and an archive in memory, for the tests. The world is the store's contents and the
-- archive.
use vire_fs.Base.{Option, none, some, List, [], ◌∷◌, ◌++◌, map, ◌≡◌, refl, sym, ap, ◌∙◌, subst}
use vire_fs.Bytes.{Bytes, codes, equal_refl, equal_ne}
use vire_fs.Dict.{lookup, insert, lookup-insert}
use vire_fs.Errors.{Error, sentinel, not_found, not_supported, Result, ok, err, ok-injective}
use vire_fs.Effect.{Action, Context}
use vire_fs.Fs.{Fs, Reader, ReadCloser}
use vire_fs.Fs.Contents.{Contents, Opened, Keeps, Stored}
use vire_fs.Zip.{ZipFile}
use vire_fs.Zip.Archive.{ZipWriter}
use vire_fs.Zip.Contents.{Gives, Opens, PutsBelow}
use vire_fs.Zip.Written.{Entries, SameBoth, Packing}
use vire_fs.Zip.RoundTrip.{ends_slash}
use vire_fs.Tests.Memory.{World, info_of, is_some}

abbrev pub Shelf : Type 0
Shelf = World × Entries

abbrev pub on_shelf : Contents Shelf
on_shelf w q = lookup q w.0

abbrev pub archived : Shelf → Entries
archived w = w.1

abbrev pub always : Context Shelf
always w = none

abbrev pub reader_of : Bytes → ReadCloser Shelf
reader_of b = record { read = λ v. ((b, none), v); close = λ v. v }

abbrev open_shelf : Option Bytes → Result (ReadCloser Shelf)
open_shelf none = err (sentinel not_found)
open_shelf (some b) = ok (reader_of b)

abbrev put_on : Bytes → (Bytes × Option Error) × Shelf → Result (Unit {0}) × Shelf
put_on key ((b, none), w) = (ok tt, (insert key b w.0, w.1))
put_on key ((b, some e), w) = (err e, w)

abbrev pub shelf : Fs Shelf
shelf = record {
  identity = 1;
  get = λ ctx key w. (open_shelf (lookup key w.0), w);
  put = λ ctx key r opts w. put_on key (r w);
  delete = λ ctx key w. (err (sentinel not_supported), w);
  list = λ ctx prefix w. (ok [], w);
  stat = λ ctx key w. (info_of key (lookup key w.0), w);
  access = λ ctx key w. (err (sentinel not_supported), w);
  exists = λ ctx key w. (ok (is_some (lookup key w.0)), w);
  copier = none;
  batch_deleter = none;
}

-- The entry takes the place of what the archive had after it.
abbrev pub writer : ZipWriter Shelf
writer = record {
  create_header = λ h w.
      (ok (λ b v. (ok tt, (v.0, w.1 ++ ((h.name, b) ∷ [])))), (w.0, w.1 ++ ((h.name, []) ∷ [])));
  close = λ w. (ok tt, w);
}

abbrev pub file_of : Bytes × Bytes → ZipFile Shelf
file_of (name, b) = record {
  name = name;
  is_dir = ends_slash name;
  uncompressed_size = 0;
  modified = 0;
  open_file = λ w. (ok (reader_of b), w);
}

abbrev pub new_reader : Action Shelf (List (ZipFile Shelf))
new_reader w = (ok (map file_of w.1), w)

abbrev bytes_of : Result (ReadCloser Shelf) → Bytes
bytes_of (ok rc) = (rc.read ([], [])).0.0
bytes_of (err e) = []

abbrev pub data_of : ZipFile Shelf → Bytes
data_of f = bytes_of (f.open_file ([], [])).0

same_both : (w : Shelf) → SameBoth on_shelf archived w w
same_both w = record { store = λ q. refl; archive = refl }

reader_of-Opened :
    (key b : Bytes) (w : Shelf) → lookup key w.0 ≡ some b → Opened on_shelf key w (reader_of b)
reader_of-Opened key b w there = record {
  reads = λ v c same e. there ∙ ap some (ap (λ y. y.0) e);
  keeps = λ v q. refl;
  closes = λ v q. refl;
}

-- What a Get of the shelf gives.
record Got (key : Bytes) (rc : ReadCloser Shelf) (w v : Shelf) : Type 0 where
  b : Bytes
  there : lookup key w.0 ≡ some b
  reader : reader_of b ≡ rc
  world : w ≡ v

shelf-Got :
    (key : Bytes) (o : Option Bytes) (rc : ReadCloser Shelf) (w v : Shelf)
    → lookup key w.0 ≡ o
    → ◌≡◌ {A = Result (ReadCloser Shelf) × Shelf} (open_shelf o, w) (ok rc, v)
    → Got key rc w v
shelf-Got key none rc w v there h = cc
shelf-Got key (some b) rc w v there h = record {
  b = b;
  there = there;
  reader = ok-injective (ap (λ y. y.0) h);
  world = ap (λ y. y.1) h;
}

pub shelf-Packing : Packing (λ _. Unit {0}) on_shelf archived always shelf writer
shelf-Packing = record {
  on_stat = λ key w. same_both w;
  on_get = λ key rc w v _ h.
      let g = shelf-Got key (lookup key w.0) rc w v refl h in
      (
        subst (SameBoth on_shelf archived w) g.world (same_both w),
        subst (λ u. Opened on_shelf key u rc) g.world
            (subst (Opened on_shelf key w) g.reader (reader_of-Opened key g.b w g.there)),
      );
  on_read = λ key rc w v u h.
      let g = shelf-Got key (lookup key w.0) rc w v refl h in
      (
        ap (λ (rc : ReadCloser Shelf). archived (rc.read u).1) (sym g.reader),
        ap (λ (rc : ReadCloser Shelf). archived (rc.close u)) (sym g.reader),
      );
  on_header = λ h entry w v e q. ap (λ y. lookup q y.1.0) (sym e);
  on_entry = λ h entry b w v u x e same wrote.
      let own : (λ (b : Bytes) (v : Shelf). (ok tt, (v.0, w.1 ++ ((h.name, b) ∷ [])))) ≡ entry =
        ok-injective (ap (λ y. y.0) e) in
      let after : (u.0, w.1 ++ ((h.name, b) ∷ [])) ≡ x =
        ap (λ y. y.1) (ap (λ (f : Bytes → Action Shelf (Unit {0})). f b u) own ∙ wrote) in
      (λ q. ap (λ (y : Shelf). lookup q y.0) (sym after), ap (λ (y : Shelf). y.1) (sym after));
  on_close = λ w v e. subst (SameBoth on_shelf archived w) (ap (λ y. y.1) e) (same_both w);
}

put_on-Stored :
    (key : Bytes) (r : Reader Shelf) (w v : Shelf) (x : (Bytes × Option Error) × Shelf)
    → Keeps on_shelf r
    → r w ≡ x
    → put_on key x ≡ (ok tt, v)
    → Stored on_shelf r key w v
put_on-Stored key r w v ((b, some e), u) still given h = cc
put_on-Stored key r w v ((b, none), u) still given h =
    let world : (insert key b u.0, u.1) ≡ v = ap (λ y. y.1) h in
    record {
      at = w;
      bytes = b;
      given = ap (λ y. y.0) given;
      holds =
          ap (λ (y : Shelf). lookup key y.0) (sym world)
          ∙ rw (lookup-insert key key b u.0, equal_refl key) refl;
      others = λ q c ne there.
          ap (λ (y : Shelf). lookup q y.0) (sym world)
          ∙ rw (lookup-insert key q b u.0, equal_ne q key ne) refl
          ∙ ap (λ y. lookup q y.1.0) (sym given)
          ∙ still w q
          ∙ there;
    }

pub shelf-PutsBelow : PutsBelow on_shelf always shelf [] (codes "out")
shelf-PutsBelow key r w v at still h = put_on-Stored key r w v (r w) still refl h

pub file_of-Opens : (e : Bytes × Bytes) → Opens on_shelf data_of (file_of e)
file_of-Opens (name, b) rc w v h = subst (Gives on_shelf b w v) (ok-injective (ap (λ y. y.0) h)) (
    subst (λ u. Gives on_shelf b w u (reader_of b)) (ap (λ y. y.1) h)
      (record {
        calm = λ q. refl;
        reads = λ u c e. ap (λ y. y.0) (sym e);
        keeps = λ v q. refl;
        closes = λ v q. refl;
      }))
