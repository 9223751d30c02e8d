-- ===== src/Tests/Disk.antt =====
-- A disk for the tests: the operating system's calls over the world of Memory, whose keys are paths.
use vire_fs.Base.{
  false, Option, none, some, [], ◌∷◌, ◌++◌, ◌==◌, length, ◌≡◌, ◌≢◌, refl, sym, ap, ◌∙◌, subst,
}
use vire_fs.Base.Int.{pos}
use vire_fs.Bytes.{Bytes, codes, slash, equal_ne, equal_refl}
use vire_fs.Dict.{lookup, insert, erase, lookup-insert, lookup-erase}
use vire_fs.Errors.{Error, foreign, Result, ok, err, ok-injective}
use vire_fs.Fs.{ReadCloser}
use vire_fs.Local.{Os, File, TempFile, OsInfo}
use vire_fs.Fs.Contents.{Contents, Unchanged, UnchangedBut, ReadsFrom}
use vire_fs.Local.FileSystem.{WritesTo, Created, FileSystem}
use vire_fs.Tests.Memory.{World}

abbrev pub content : Contents World
content w q = lookup q w

abbrev append_to : Bytes → Bytes → Option Bytes → World → Result (Unit {0}) × World
append_to p b none w = (err (foreign 9), w)
append_to p b (some c) w = (ok tt, insert p (c ++ b) w)

abbrev pub file_at : Bytes → File World
file_at p = record { write = λ b w. append_to p b (lookup p w) w; close = λ w. (ok tt, w) }

abbrev bytes_of : Option Bytes → Bytes × Option Error
bytes_of none = ([], some (foreign 9))
bytes_of (some b) = (b, none)

abbrev pub reader_at : Bytes → ReadCloser World
reader_at p = record { read = λ w. (bytes_of (lookup p w), w); close = λ w. w }

-- Error 2 says that there is no such file.
abbrev opened : Bytes → Option Bytes → World → Result (ReadCloser World) × World
opened p none w = (err (foreign 2), w)
opened p (some b) w = (ok (reader_at p), w)

abbrev temp_made : Bytes → Option Bytes → World → Result (TempFile World) × World
temp_made name none w = (ok (record { name = name; file = file_at name }), insert name [] w)
temp_made name (some b) w = (err (foreign 17), w)

abbrev renamed : Bytes → Bytes → Option Bytes → World → Result (Unit {0}) × World
renamed a b none w = (err (foreign 2), w)
renamed a b (some c) w = (ok tt, insert b c (erase a w))

abbrev info_of : Option Bytes → Result OsInfo
info_of none = err (foreign 2)
info_of (some b) = ok (record { size = pos (length b); mod_time = 0; is_dir = false })

abbrev pub os : Os World
os = record {
  getwd = λ w. (ok (codes "/home"), w);
  open_file = λ p w. opened p (lookup p w) w;
  create = λ p w. (ok (file_at p), insert p [] w);
  create_temp =
      λ d pattern w. temp_made (d ++ (slash ∷ pattern)) (lookup (d ++ (slash ∷ pattern)) w) w;
  mkdir_all = λ p perm w. (ok tt, w);
  remove = λ p w. (ok tt, erase p w);
  rename = λ a b w. renamed a b (lookup a w) w;
  read_dir = λ p w. (ok [], w);
  stat = λ p w. (info_of (lookup p w), w);
  is_not_exist = λ n. n == 2;
  is_permission = λ n. n == 13;
}

insert-UnchangedBut : (p b : Bytes) (w : World) → UnchangedBut content p w (insert p b w)
insert-UnchangedBut p b w q ne = rw (lookup-insert p q b w, equal_ne q p ne)

insert-holds : (p b : Bytes) (w : World) → lookup p (insert p b w) ≡ some b
insert-holds p b w = rw (lookup-insert p p b w, equal_refl p)

erase-UnchangedBut : (p : Bytes) (w : World) → UnchangedBut content p w (erase p w)
erase-UnchangedBut p w q ne = rw (lookup-erase p q w, equal_ne q p ne)

erase-none : (p : Bytes) (w : World) → lookup p (erase p w) ≡ none
erase-none p w = rw (lookup-erase p p w, equal_refl p)

append_to-UnchangedBut :
    (p b : Bytes) (o : Option Bytes) (w : World) → UnchangedBut content p w (append_to p b o w).1
append_to-UnchangedBut p b none w q ne = refl
append_to-UnchangedBut p b (some c) w q ne = insert-UnchangedBut p (c ++ b) w q ne

file_at-WritesTo : (p : Bytes) → WritesTo content p (file_at p)
file_at-WritesTo p = record {
  elsewhere = λ b w. append_to-UnchangedBut p b (lookup p w) w;
  appends = λ b c w v there wrote.
      ap (λ (y : Result (Unit {0}) × World). content y.1 p)
        (sym wrote ∙ ap (λ o. append_to p b o w) there)
      ∙ insert-holds p (c ++ b) w;
  closes = λ w q. refl;
}

made-Created : (p : Bytes) (w : World) → Created content p (file_at p) w (insert p [] w)
made-Created p w = record {
  empty = insert-holds p [] w;
  elsewhere = insert-UnchangedBut p [] w;
  writes = file_at-WritesTo p;
}

-- A call that gives this result in this world has made this file.
create-Created :
    (p : Bytes) (f : File World) (w v : World) → os.create p w ≡ (ok f, v) → Created content p f w v
create-Created p f w v e =
    let same : file_at p ≡ f = ok-injective (ap (λ y. y.0) e) in
    let world : insert p [] w ≡ v = ap (λ y. y.1) e in
    subst (λ g. Created content p g w v) same
      (subst (λ u. Created content p (file_at p) w u) world (made-Created p w))

temp-Created :
    (name : Bytes) (t : TempFile World) (o : Option Bytes) (w v : World)
    → lookup name w ≡ o
    → temp_made name o w ≡ (ok t, v)
    → (lookup t.name w ≡ none) × Created content t.name t.file w v
temp-Created name t none w v fresh e =
    let same : record { name = name; file = file_at name } ≡ t = ok-injective (ap (λ y. y.0) e) in
    let world : insert name [] w ≡ v = ap (λ y. y.1) e in
    subst (λ (s : TempFile World). (lookup s.name w ≡ none) × Created content s.name s.file w v)
      same (fresh, subst (λ u. Created content name (file_at name) w u) world (made-Created name w))
temp-Created name t (some b) w v fresh e = cc

temp_refused :
    (name : Bytes) (d : Error) (o : Option Bytes) (w v : World)
    → temp_made name o w ≡ (err d, v)
    → Unchanged content w v
temp_refused name d none w v e = cc
temp_refused name d (some b) w v e = λ q. ap (λ (y : World). lookup q y) (sym (ap (λ y. y.1) e))

rename_done :
    (a b : Bytes) (o : Option Bytes) (w v : World)
    → lookup a w ≡ o
    → renamed a b o w ≡ (ok tt, v)
    → (lookup b v ≡ lookup a w) × ((q : Bytes) → q ≢ a → q ≢ b → lookup q v ≡ lookup q w)
rename_done a b none w v there e = cc
rename_done a b (some c) w v there e =
    let world : insert b c (erase a w) ≡ v = ap (λ y. y.1) e in
    (
      ap (lookup b) (sym world) ∙ insert-holds b c (erase a w) ∙ sym there,
      λ q na nb.
          ap (lookup q) (sym world)
          ∙ insert-UnchangedBut b c (erase a w) q nb
          ∙ erase-UnchangedBut a w q na,
    )

rename_refused :
    (a b : Bytes) (d : Error) (o : Option Bytes) (w v : World)
    → renamed a b o w ≡ (err d, v)
    → Unchanged content w v
rename_refused a b d none w v e = λ q. ap (λ (y : World). lookup q y) (sym (ap (λ y. y.1) e))
rename_refused a b d (some c) w v e = cc

bytes_of-eq : (o : Option Bytes) (b : Bytes) → bytes_of o ≡ (b, none) → o ≡ some b
bytes_of-eq none b e = cc
bytes_of-eq (some c) b e = ap some (ap (λ y. y.0) e)

reader_at-ReadsFrom : (p : Bytes) → ReadsFrom content p (reader_at p)
reader_at-ReadsFrom p = record {
  reads = λ w b e. bytes_of-eq (lookup p w) b e;
  keeps = λ w q. refl;
  closes = λ w q. refl;
}

open_done :
    (p : Bytes) (rc : ReadCloser World) (o : Option Bytes) (w v : World)
    → opened p o w ≡ (ok rc, v)
    → Unchanged content w v × ReadsFrom content p rc
open_done p rc none w v e = cc
open_done p rc (some b) w v e = (
  λ q. ap (λ (y : World). lookup q y) (sym (ap (λ y. y.1) e)),
  subst (ReadsFrom content p) (ok-injective (ap (λ y. y.0) e)) (reader_at-ReadsFrom p),
)

pub disk-FileSystem : FileSystem content os
disk-FileSystem = record {
  mkdir_all = λ p perm w q. refl;
  create = create-Created;
  create_fails = λ p e w v h. cc;
  create_temp = λ d pattern t w v h. temp-Created (d ++ (slash ∷ pattern)) t _ w v refl h;
  create_temp_fails = λ d pattern e w v h. temp_refused (d ++ (slash ∷ pattern)) e _ w v h;
  remove = λ p w. erase-UnchangedBut p w;
  removed =
      λ p w v h. ap (λ (y : Result (Unit {0}) × World). lookup p y.1) (sym h) ∙ erase-none p w;
  rename = λ a b w v h. rename_done a b _ w v refl h;
  rename_fails = λ a b e w v h. rename_refused a b e _ w v h;
  open_file = λ p rc w v h. open_done p rc _ w v h;
}
