-- ===== src/Tests/Pair.antt =====
-- Two stores for the tests that share nothing: the world is the contents of both.
use vire_fs.Base.{Option, none, some, List, [], ◌≡◌, ◌≢◌, refl, sym, ap, ◌∙◌, subst}
use vire_fs.Bytes.{Bytes, equal_ne, equal_refl}
use vire_fs.Dict.{lookup, insert, lookup-insert}
use vire_fs.Errors.{Error, sentinel, not_found, not_supported, Result, ok, err, ok-injective}
use vire_fs.Effect.{Context}
use vire_fs.Fs.{Fs, FileInfo, Reader, ReadCloser}
use vire_fs.Fs.Contents.{Contents, Keeps}
use vire_fs.Fs.Copying.{Beside, PutBeside, OpenedBeside}
use vire_fs.Tests.Memory.{World, info_of, is_some, listed}

abbrev pub Both : Type 0
Both = World × World

abbrev pub from_left : Contents Both
from_left w q = lookup q w.0

abbrev pub at_right : Contents Both
at_right w q = lookup q w.1

abbrev pub always : Context Both
always w = none

-- What is read is what is there when it is read.
abbrev read_left : Option Bytes → Bytes × Option Error
read_left none = ([], some (sentinel not_found))
read_left (some b) = (b, none)

abbrev reader_left : Bytes → ReadCloser Both
reader_left key = record { read = λ w. (read_left (lookup key w.0), w); close = λ w. w }

abbrev open_left : Bytes → Option Bytes → Both → Result (ReadCloser Both) × Both
open_left key none w = (err (sentinel not_found), w)
open_left key (some b) w = (ok (reader_left key), w)

abbrev store_right : Bytes → (Bytes × Option Error) × Both → Result (Unit {0}) × Both
store_right key ((b, none), w) = (ok tt, (w.0, insert key b w.1))
store_right key ((b, some e), w) = (err e, w)

abbrev read_only : Both → Result (Unit {0}) × Both
read_only w = (err (sentinel not_supported), w)

abbrev pub left : List (Bytes × List FileInfo) → Fs Both
left files = record {
  identity = 1;
  get = λ ctx key w. open_left key (lookup key w.0) w;
  put = λ ctx key r opts. read_only;
  delete = λ ctx key. read_only;
  list = λ ctx prefix w. (listed (lookup prefix files), w);
  stat = λ ctx key w. (info_of key (lookup key w.0), w);
  access = λ ctx key w. (err (sentinel not_supported), w);
  exists = λ ctx key w. (ok (is_some (lookup key w.0)), w);
  copier = none;
  batch_deleter = none;
}

abbrev pub right : Fs Both
right = record {
  identity = 2;
  get = λ ctx key w. (err (sentinel not_supported), w);
  put = λ ctx key r opts w. store_right key (r w);
  delete = λ ctx key. read_only;
  list = λ ctx prefix w. (ok [], w);
  stat = λ ctx key w. (info_of key (lookup key w.1), w);
  access = λ ctx key w. (err (sentinel not_supported), w);
  exists = λ ctx key w. (ok (is_some (lookup key w.1)), w);
  copier = none;
  batch_deleter = none;
}

read_left-eq : (o : Option Bytes) (b : Bytes) → read_left o ≡ (b, none) → o ≡ some b
read_left-eq none b e = cc
read_left-eq (some c) b e = ap some (ap (λ y. y.0) e)

reader_left-OpenedBeside :
    (key : Bytes) (w : Both) → OpenedBeside from_left at_right key (reader_left key) w w
reader_left-OpenedBeside key w = record {
  reads = record {
    reads = λ v b same e. sym same ∙ read_left-eq (lookup key v.0) b e;
    keeps = λ v q. refl;
    closes = λ v q. refl;
  };
  keeps = λ v q. refl;
  closes = λ v q. refl;
  calm_from = λ q. refl;
  calm_to = λ q. refl;
}

open_left-OpenedBeside :
    (key : Bytes) (o : Option Bytes) (rc : ReadCloser Both) (w v : Both)
    → open_left key o w ≡ (ok rc, v)
    → OpenedBeside from_left at_right key rc w v
open_left-OpenedBeside key none rc w v e = cc
open_left-OpenedBeside key (some b) rc w v e =
    subst (λ c. OpenedBeside from_left at_right key c w v) (ok-injective (ap (λ y. y.0) e))
      (subst (OpenedBeside from_left at_right key (reader_left key) w) (ap (λ y. y.1) e)
        (reader_left-OpenedBeside key w))

insert-other :
    (key q b c : Bytes) (w : World)
    → q ≢ key
    → lookup q w ≡ some c
    → lookup q (insert key b w) ≡ some c
insert-other key q b c w ne there = rw (lookup-insert key q b w, equal_ne q key ne) there

insert-same : (key b : Bytes) (w : World) → lookup key (insert key b w) ≡ some b
insert-same key b w = rw (lookup-insert key key b w, equal_refl key)

store_right-PutBeside :
    (key : Bytes) (r : Reader Both) (w w' : Both) (x : (Bytes × Option Error) × Both)
    → Keeps from_left r
    → Keeps at_right r
    → r w ≡ x
    → store_right key x ≡ (ok tt, w')
    → PutBeside from_left at_right r key w w'
store_right-PutBeside key r w w' ((b, some e), v) still_from still_to given h = cc
store_right-PutBeside key r w w' ((b, none), v) still_from still_to given h =
    let world : (v.0, insert key b v.1) ≡ w' = ap (λ y. y.1) h in
    let same : v ≡ (r w).1 = ap (λ y. y.1) (sym given) in
    record {
      stored = record {
        at = w;
        bytes = b;
        given = ap (λ y. y.0) given;
        holds = ap (λ (u : Both). at_right u key) (sym world) ∙ insert-same key b v.1;
        others = λ q c ne there.
            ap (λ (u : Both). at_right u q) (sym world)
            ∙ insert-other key q b c v.1 ne
                (ap (λ (u : Both). at_right u q) same ∙ still_to w q ∙ there);
      };
      calm = λ q. refl;
      after = λ q.
          ap (λ (u : Both). from_left u q) (sym world)
          ∙ ap (λ (u : Both). from_left u q) same
          ∙ still_from w q;
    }

pub left-right-Beside :
    (files : List (Bytes × List FileInfo))
    → Beside (λ _. Unit) from_left at_right always (left files) right
left-right-Beside files = record {
  apart = refl;
  on_get = λ key rc w v _ h. open_left-OpenedBeside key _ rc w v h;
  on_put = λ key r opts w w' _ still_from still_to h.
      store_right-PutBeside key r w w' (r w) still_from still_to refl h;
}
