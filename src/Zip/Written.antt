-- ===== src/Zip/Written.antt =====
-- What Pack writes: the entries that its writer is given, one for each key.
use vire_fs.Base.{
  Option, some, List, [], ◌∷◌, ◌++◌, append-nil, append_assoc, ◌≡◌, refl, sym, ap, ◌∙◌, subst, All,
}
use vire_fs.Bytes.{Bytes}
use vire_fs.Errors.{Result, ok, err, ok-injective}
use vire_fs.Effect.{Action, Context}
use vire_fs.Fs.{Fs, FileInfo, ReadCloser}
use vire_fs.Fs.Contents.{Contents, Unchanged, Opened}
use vire_fs.Key.{clean_key}
use vire_fs.Zip.Rounds.{Creates, Creates-eq-ok}
use vire_fs.Zip.Archive.{
  FileHeader, ZipWriter, header_of, make_header, pack_keys, pack, close_after,
}

-- The names and the data of an archive's entries, in their order.
abbrev pub Entries : Type 0
Entries = List (Bytes × Bytes)

-- The store and the writer have no part in common.
pub record SameBoth {W : Type 0} (from : Contents W) (written : W → Entries) (w v : W)
    : Type 0 where
  pub store : Unchanged from w v
  pub archive : written v ≡ written w

-- What Pack relies on: Stat and Get leave the store and the archive alone, a reader gives what its
-- key holds, and a new entry takes the bytes that are written to it while it is the last one.
pub record Packing {W : Type 0} (IsValid : Bytes → Type 0) (from : Contents W)
    (written : W → Entries) (ctx : Context W) (fsys : Fs W) (zw : ZipWriter W) : Type 0 where
  pub on_stat : (key : Bytes) (w : W) → SameBoth from written w (fsys.stat ctx key w).1
  pub on_get :
      (key : Bytes) (rc : ReadCloser W) (w v : W)
      → IsValid key
      → fsys.get ctx key w ≡ (ok rc, v)
      → SameBoth from written w v × Opened from key v rc
  pub on_read :
      (key : Bytes) (rc : ReadCloser W) (w v u : W)
      → fsys.get ctx key w ≡ (ok rc, v)
      → (written (rc.read u).1 ≡ written u) × (written (rc.close u) ≡ written u)
  pub on_header :
      (h : FileHeader) (entry : Bytes → Action W (Unit {0})) (w v : W)
      → zw.create_header h w ≡ (ok entry, v)
      → Unchanged from w v
  pub on_entry :
      (h : FileHeader) (entry : Bytes → Action W (Unit {0})) (b : Bytes) (w v u x : W)
      → zw.create_header h w ≡ (ok entry, v)
      → written u ≡ written v
      → entry b u ≡ (ok tt, x)
      → Unchanged from u x × (written x ≡ written w ++ ((h.name, b) ∷ []))
  pub on_close : (w v : W) → zw.close w ≡ (ok tt, v) → SameBoth from written w v

-- One entry for each key, with its clean form for a name, and what the store holds there.
abbrev pub Packed : (Bytes → Option Bytes) → List Bytes → Entries → Type 0
Packed held [] [] = Unit
Packed held (raw ∷ keys) ((name, b) ∷ es) =
    (clean_key raw ≡ ok name) × (held name ≡ some b) × Packed held keys es
Packed held _ _ = ⊥

Packed-map :
    {held held' : Bytes → Option Bytes} (keys : List Bytes) (es : Entries)
    → ((q : Bytes) → held' q ≡ held q)
    → Packed held' keys es
    → Packed held keys es
Packed-map [] [] same _ = tt
Packed-map [] (_ ∷ es) same h = elim h [ ]
Packed-map (raw ∷ keys) [] same h = elim h [ ]
Packed-map (raw ∷ keys) ((name, b) ∷ es) same (clean, there, h) =
    (clean, sym (same name) ∙ there, Packed-map keys es same h)

module _ {W : Type 0} {IsValid : Bytes → Type 0} {from : Contents W} {written : W → Entries}
    {ctx : Context W} {fsys : Fs W} {zw : ZipWriter W}
    (p : Packing IsValid from written ctx fsys zw) where
  abbrev Made : Bytes → W → FileHeader → W → Type 0
  Made key w h v = (h.name ≡ key) × SameBoth from written w v

  header_of-Made :
      (key : Bytes) (w : W) (r : Result FileInfo × W)
      → SameBoth from written w r.1
      → Made key w (header_of ctx fsys zw key r).0 (header_of ctx fsys zw key r).1
  header_of-Made key w (ok info, v) same = (refl, same)
  header_of-Made key w (err e, v) same = (refl, same)

  make_header-Made :
      (key : Bytes) (w : W) (h : FileHeader) (v : W)
      → make_header ctx fsys zw key w ≡ (ok h, v)
      → Made key w h v
  make_header-Made key w h v e =
      let r = header_of ctx fsys zw key (fsys.stat ctx key w) in
      let header : r.0 ≡ h = ok-injective (ap (λ x. x.0) e) in
      let (named, same) = header_of-Made key w (fsys.stat ctx key w) (p.on_stat key w) in
      (
        ap (λ (h : FileHeader). h.name) (sym header) ∙ named,
        subst (SameBoth from written w) (ap (λ x. x.1) e) same,
      )

  -- One round of the loop: the new entry, and the world after it.
  record Round (raw : Bytes) (keys : List Bytes) (w v : W) : Type 0 where
    name : Bytes
    b : Bytes
    after : W
    clean : clean_key raw ≡ ok name
    held : from w name ≡ some b
    calm : Unchanged from w after
    entry : written after ≡ written w ++ ((name, b) ∷ [])
    rest : pack_keys ctx fsys zw keys after ≡ (ok tt, v)

  Creates-Round :
      (raw : Bytes) (keys : List Bytes) (w v : W)
      → ((k : Bytes) → clean_key raw ≡ ok k → IsValid k)
      → Creates ctx fsys zw raw keys w v
      → Round raw keys w v
  Creates-Round raw keys w v valid c =
      let r = c.reads in
      let (named, made) = make_header-Made c.key w c.header c.made_at c.made in
      let started = p.on_header c.header c.entry c.made_at c.created_at c.created in
      let (got, opened) = p.on_get c.key r.rc c.created_at r.opened (valid c.key c.clean) r.got in
      let archive_at = λ (u : W). p.on_read c.key r.rc c.created_at r.opened u r.got in
      let (wrote, entry) =
        p.on_entry c.header c.entry r.b c.made_at c.created_at (r.rc.read r.opened).1 r.copied
          c.created ((archive_at r.opened).0 ∙ got.archive) r.wrote in
      record {
        name = c.key;
        b = r.b;
        after = r.rc.close r.copied;
        clean = c.clean;
        held =
            sym (got.store c.key ∙ started c.key ∙ made.store c.key)
            ∙ opened.reads r.opened r.b refl r.read;
        calm = λ q.
            opened.closes r.copied q
            ∙ wrote q
            ∙ opened.keeps r.opened q
            ∙ got.store q
            ∙ started q
            ∙ made.store q;
        entry =
            (archive_at r.copied).1
            ∙ entry
            ∙ ap (λ l. l ++ ((c.header.name, r.b) ∷ [])) made.archive
            ∙ ap (λ n. written w ++ ((n, r.b) ∷ [])) named;
        rest = r.rest;
      }

  pack_keys-Packed :
      (keys : List Bytes) (w v : W)
      → All (λ raw. (k : Bytes) → clean_key raw ≡ ok k → IsValid k) keys
      → pack_keys ctx fsys zw keys w ≡ (ok tt, v)
      → (es : Entries) × Packed (from w) keys es × (written v ≡ written w ++ es)
  unfolding pack_keys
  pack_keys-Packed [] w v _ h =
      ([], tt, ap (λ x. written x.1) (sym h) ∙ sym (append-nil (written w)))
  pack_keys-Packed (raw ∷ keys) w v (valid, others) h =
      let r = Creates-Round raw keys w v valid (Creates-eq-ok ctx fsys zw raw keys w v h) in
      let (es, packed, all) = pack_keys-Packed keys r.after v others r.rest in
      (
        (r.name, r.b) ∷ es,
        (r.clean, r.held, Packed-map keys es r.calm packed),
        all ∙ ap (λ l. l ++ es) r.entry ∙ append_assoc (written w) ((r.name, r.b) ∷ []) es,
      )

  -- If Pack succeeds, it has written one entry for each key, in their order: named by the clean key,
  -- with what the store holds there.
  pub pack-Packed :
      (keys : List Bytes) (w v : W)
      → All (λ raw. (k : Bytes) → clean_key raw ≡ ok k → IsValid k) keys
      → pack ctx fsys zw keys w ≡ (ok tt, v)
      → (es : Entries) × Packed (from w) keys es × (written v ≡ written w ++ es)
  unfolding pack
  pack-Packed keys w v valid h = by_keys (pack_keys ctx fsys zw keys w) refl h
    where
      by_keys :
          (r : Result (Unit {0}) × W)
          → pack_keys ctx fsys zw keys w ≡ r
          → close_after ctx fsys zw r ≡ (ok tt, v)
          → (es : Entries) × Packed (from w) keys es × (written v ≡ written w ++ es)
      by_keys (ok u, x) e closed =
          let (es, packed, all) = pack_keys-Packed keys w x valid e in
          (es, packed, (p.on_close x v closed).archive ∙ all)
      by_keys (err d, x) e closed = cc
