-- ===== src/Tests/ReaderTests.antt =====
-- Stores in a world that counts the open readers.
use vire_fs.Base.{
  ℕ, suc, ◌-◌, Option, none, some, List, [], ◌∷◌, ◌≡◌, ◌≢◌, refl, sym, ap, ◌∙◌, arith,
}
use vire_fs.Bytes.{Bytes, codes, equal}
use vire_fs.GoPath.{join_path}
use vire_fs.Dict.{lookup, insert}
use vire_fs.Errors.{Error, sentinel, not_found, not_supported, Result, ok, err, ok-injective}
use vire_fs.Effect.{Action, Context}
use vire_fs.Fs.{Fs, FileInfo, ReadCloser, copy}
use vire_fs.Fs.Readers.{Opens, PutsSteady, CopiesReaders}
use vire_fs.Walk.{exhausted, walk, sub_prefix}
use vire_fs.Migrate.{migrate, destination_key, strip_prefix}
use vire_fs.Migrate.Readers.{migrate-readers}
use vire_fs.Zip.Archive.{ZipWriter, pack}
use vire_fs.Zip.Readers.{PacksReaders, pack-readers}
use vire_fs.Tests.Memory.{World, file_at, info_of, is_some, listed}

abbrev Counted : Type 0
Counted = World × ℕ

abbrev readers : Counted → ℕ
readers w = w.1

abbrev live : Context Counted
live w = none

abbrev reader_of : Bytes → ReadCloser Counted
reader_of b = record { read = λ v. ((b, none), v); close = λ v. (v.0, v.1 - 1) }

abbrev open_bytes : Option Bytes → Counted → Result (ReadCloser Counted) × Counted
open_bytes none w = (err (sentinel not_found), w)
open_bytes (some b) w = (ok (reader_of b), (w.0, suc w.1))

abbrev put_bytes : Bytes → (Bytes × Option Error) × Counted → Result (Unit {0}) × Counted
put_bytes key ((b, none), w) = (ok tt, (insert key b w.0, w.1))
put_bytes key ((b, some e), w) = (err e, w)

abbrev counting : ℕ → List (Bytes × List FileInfo) → Fs Counted
counting identity files = record {
  identity = identity;
  get = λ ctx key w. open_bytes (lookup key w.0) w;
  put = λ ctx key r opts w. put_bytes key (r w);
  delete = λ ctx key w. (err (sentinel not_supported), w);
  list = λ ctx prefix w. (listed (lookup prefix files), w);
  stat = λ ctx key w. (info_of key (lookup key w.0), w);
  access = λ ctx key w. (err (sentinel not_supported), w);
  exists = λ ctx key w. (ok (is_some (lookup key w.0)), w);
  copier = none;
  batch_deleter = none;
}

opened :
    (o : Option Bytes) (rc : ReadCloser Counted) (w v : Counted)
    → open_bytes o w ≡ (ok rc, v)
    → (b : Bytes) × (reader_of b ≡ rc) × (readers v ≡ suc (readers w))
opened none rc w v h = cc
opened (some b) rc w v h = (
  b,
  ok-injective (ap (λ y. y.0) h),
  ap (λ (y : Result (ReadCloser Counted) × Counted). y.1.1) (sym h),
)

refused :
    (o : Option Bytes) (e : Error) (w v : Counted)
    → open_bytes o w ≡ (err e, v)
    → readers v ≡ readers w
refused none e w v h = ap (λ (y : Result (ReadCloser Counted) × Counted). y.1.1) (sym h)
refused (some b) e w v h = cc

open_bytes-Opens : (o : Counted → Option Bytes) → Opens readers (λ w. open_bytes (o w) w)
open_bytes-Opens o = record {
  on_open = λ rc w v h. (opened (o w) rc w v h).2;
  open_fails = λ e w v h. refused (o w) e w v h;
  on_read = λ rc w v u h.
      let (b, same, _) = opened (o w) rc w v h in
      ap (λ (r : ReadCloser Counted). readers (r.read u).1) (sym same);
  on_close = λ rc w v u n h e.
      let (b, same, _) = opened (o w) rc w v h in
      ap (λ (r : ReadCloser Counted). readers (r.close u)) (sym same) ∙ omega (arith, e);
}

put_bytes-readers :
    (key : Bytes) (x : (Bytes × Option Error) × Counted) → readers (put_bytes key x).1 ≡ readers x.1
put_bytes-readers key ((b, none), w) = refl
put_bytes-readers key ((b, some e), w) = refl

abbrev src : Fs Counted
src = counting 1 ((codes "s", file_at (codes "s/a") ∷ file_at (codes "s/gone") ∷ []) ∷ [])

abbrev dst : Fs Counted
dst = counting 2 []

dst-PutsSteady : PutsSteady readers live dst
dst-PutsSteady key r opts keeps w = put_bytes-readers key (r w) ∙ keeps w

copies : CopiesReaders readers live src dst
copies = record {
  on_get = λ key. open_bytes-Opens (λ w. lookup key w.0);
  on_put = dst-PutsSteady;
  on_copy = λ native a b h. cc;
}

abbrev start : Counted
start = ((codes "s/a", codes "1") ∷ [], 3)

-- The second file is listed and not there: the migration stops with an error.
ends : (migrate 4 live src (codes "s") dst (codes "t") [] start).0 ≢ exhausted
unfolding migrate walk lookup insert equal sub_prefix destination_key strip_prefix join_path copy
ends e = cc

migrate-readers_example :
    readers (migrate 4 live src (codes "s") dst (codes "t") [] start).1.0 ≡ readers start
migrate-readers_example =
    migrate-readers readers live src dst copies 4 (codes "s") (codes "t") [] start
      (record {
        on_list = λ prefix w. refl;
        on_exists = λ key w. refl;
        on_progress = λ f p w h. cc;
      })
      ends

abbrev writer : ZipWriter Counted
writer = record {
  create_header = λ h w. (ok (λ b v. (ok tt, v)), w);
  close = λ w. (err (sentinel not_supported), w);
}

packs : PacksReaders readers live src writer
packs = record {
  on_stat = λ key w. refl;
  on_get = λ key. open_bytes-Opens (λ w. lookup key w.0);
  on_header = λ h w. refl;
  on_entry = λ h entry b w v created u.
      let same : (λ (b : Bytes) (v : Counted). (ok tt, v)) ≡ entry =
        ok-injective (ap (λ y. y.0) created) in
      ap (λ (f : Bytes → Action Counted (Unit {0})). readers (f b u).1) (sym same);
  on_close = λ w. refl;
}

pack-readers_example :
    readers (pack live src writer (codes "s/a" ∷ codes "gone" ∷ []) start).1 ≡ readers start
pack-readers_example =
    pack-readers readers live src writer packs (codes "s/a" ∷ codes "gone" ∷ []) start
