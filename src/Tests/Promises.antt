-- ===== src/Tests/Promises.antt =====
-- What the stores of the tests hold, in the words of Fs/Contents.
use vire_fs.Base.{Option, none, some, ◌≡◌, ◌≢◌, refl, sym, ap, ◌∙◌, subst, drop}
use vire_fs.Bytes.{Bytes, codes, equal_ne, equal_refl}
use vire_fs.Dict.{lookup, insert, erase, lookup-insert, lookup-erase}
use vire_fs.Errors.{Error, Result, ok, ok-injective}
use vire_fs.Fs.{Reader, ReadCloser}
use vire_fs.Fs.Contents.{Contents, Unchanged, UnchangedBut, Opened, Keeps, Stored}
use vire_fs.Object.Store.{Bucket}
use vire_fs.Tests.Bucket.{client, body_of, copy_to}
use vire_fs.Tests.Memory.{World, live, store, open_bytes, remove}

abbrev pub held : Contents World
held w q = lookup q w

pub store-Stored :
    (key : Bytes) (r : Reader World) (w v : World) (x : (Bytes × Option Error) × World)
    → Keeps held r
    → r w ≡ x
    → store key x ≡ (ok tt, v)
    → Stored held r key w v
store-Stored key r w v ((b, some e), u) still given h = cc
store-Stored key r w v ((b, none), u) still given h =
    let world : insert key b u ≡ v = ap (λ y. y.1) h in
    record {
      at = w;
      bytes = b;
      given = ap (λ y. y.0) given;
      holds = ap (lookup key) (sym world) ∙ rw (lookup-insert key key b u, equal_refl key) refl;
      others = λ q c ne there.
          ap (lookup q) (sym world)
          ∙ rw (lookup-insert key q b u, equal_ne q key ne) refl
          ∙ ap (λ y. lookup q y.1) (sym given)
          ∙ still w q
          ∙ there;
    }

insert-UnchangedBut : (k b : Bytes) (w : World) → UnchangedBut held k w (insert k b w)
insert-UnchangedBut k b w q ne = rw (lookup-insert k q b w, equal_ne q k ne)

erase-UnchangedBut : (k : Bytes) (w : World) → UnchangedBut held k w (erase k w)
erase-UnchangedBut k w q ne = rw (lookup-erase k q w, equal_ne q k ne)

body-Opened :
    (k b : Bytes) (w : World)
    → lookup k w ≡ some b
    → Opened held k w (record { read = λ v. ((b, none), v); close = λ v. v })
body-Opened k b w there = record {
  reads = λ v c same e. there ∙ ap some (ap (λ y. y.0) e);
  keeps = λ v q. refl;
  closes = λ v q. refl;
}

got-Opened :
    (k : Bytes) (o : Option Bytes) (rc : ReadCloser World) (w v : World)
    → lookup k w ≡ o
    → ◌≡◌ {A = Result (ReadCloser World) × World} (body_of o, w) (ok rc, v)
    → Unchanged held w v × Opened held k v rc
got-Opened k none rc w v there h = cc
got-Opened k (some b) rc w v there h =
    let world : w ≡ v = ap (λ y. y.1) h in
    (
      λ q. ap (lookup q) (sym world),
      subst (Opened held k v) (ok-injective (ap (λ y. y.0) h)) (
          subst (λ u. Opened held k u (record { read = λ v. ((b, none), v); close = λ v. v })) world
            (body-Opened k b w there)),
    )

pub copied :
    (k : Bytes) (source : Bytes) (o : Option Bytes) (w v : World)
    → lookup source w ≡ o
    → copy_to k o w ≡ (ok tt, v)
    → (held v k ≡ held w source) × UnchangedBut held k w v × (held w source ≢ none)
copied k source none w v there h = cc
copied k source (some b) w v there h =
    let world : insert k b w ≡ v = ap (λ y. y.1) h in
    (
      ap (lookup k) (sym world) ∙ rw (lookup-insert k k b w, equal_refl k) refl ∙ sym there,
      λ q ne. ap (lookup q) (sym world) ∙ insert-UnchangedBut k b w q ne,
      λ missing. cc,
    )

pub client-Bucket : Bucket held (drop 2) (codes "b") live client
client-Bucket = record {
  get_object = λ k rc w v h. got-Opened k _ rc w v refl h;
  put_object = λ i w v same still h. store-Stored i.key i.body w v (i.body w) still refl h;
  delete_object = λ k w. erase-UnchangedBut k w;
  deleted = λ k w v h.
      ap (λ (y : Result (Unit {0}) × World). lookup k y.1) (sym h)
      ∙ rw (lookup-erase k k w, equal_refl k) refl;
  copy_object = λ source k w v h. copied k (drop 2 source) _ w v refl h;
}

-- The store of Memory.
pub disk-get :
    (key : Bytes) (o : Option Bytes) (rc : ReadCloser World) (w v : World)
    → lookup key w ≡ o
    → ◌≡◌ {A = Result (ReadCloser World) × World} (open_bytes o, w) (ok rc, v)
    → Unchanged held w v × Opened held key v rc
disk-get key none rc w v there h = cc
disk-get key (some b) rc w v there h = got-Opened key (some b) rc w v there h

pub disk-deleted :
    (key : Bytes) (o : Option Bytes) (w v : World) → remove key o w ≡ (ok tt, v) → erase key w ≡ v
disk-deleted key none w v h = cc
disk-deleted key (some b) w v h = ap (λ y. y.1) h

pub disk-kept :
    (key : Bytes) (o : Option Bytes) (w : World) → UnchangedBut held key w (remove key o w).1
disk-kept key none w q ne = refl
disk-kept key (some b) w q ne = rw (lookup-erase key q w, equal_ne q key ne)
