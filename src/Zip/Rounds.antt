-- ===== src/Zip/Rounds.antt =====
-- One round of Pack's loop, taken apart into the calls that it made.
use vire_fs.Base.{none, List, ◌∷◌, ◌≡◌, sym, ap, ◌∙◌, Option-cases, inl, inr}
use vire_fs.Bytes.{Bytes}
use vire_fs.Errors.{ok}
use vire_fs.Effect.{
  Action, Context, ◌>>=◌, ◌>>◌, lift, check, or_error, deferred, deferred-eq, bind-eq-ok,
  check-eq-ok,
}
use vire_fs.Fs.{Fs, Reader, ReadCloser, io_copy}
use vire_fs.Key.{clean_key}
use vire_fs.Zip.Archive.{FileHeader, ZipWriter, make_header, pack_keys}

io_copy-eq-ok :
    {W : Type 0} (write : Bytes → Action W (Unit {0})) (read : Reader W) (w v : W)
    → io_copy write read w ≡ (ok tt, v)
    → (b : Bytes) × ((read w).0 ≡ (b, none)) × (write b (read w).1 ≡ (ok tt, v))
io_copy-eq-ok write read w v h =
    let (_, u, wrote, h') =
      bind-eq-ok (write (read w).0.0) (λ _. or_error (read w).0.1 tt) (read w).1 h in
    elim (Option-cases (read w).0.1) [
      | inr (e, broken) ↦ cc (rw broken at h')
      | inl whole ↦ (
        (read w).0.0,
        (λ i. ((read w).0.0, whole i)),
        wrote ∙ ap (λ x. (ok tt, x)) (ap (λ x. x.1) (rw whole at h')),
      )
    ]

module _ {W : Type 0} (ctx : Context W) (fsys : Fs W) (zw : ZipWriter W) where
  -- The reading of a key into an entry, and the rest of the loop.
  pub record Reads (key : Bytes) (entry : Bytes → Action W (Unit {0})) (keys : List Bytes) (w v : W)
      : Type 0 where
    pub rc : ReadCloser W
    pub opened : W
    pub copied : W
    pub b : Bytes
    pub got : fsys.get ctx key w ≡ (ok rc, opened)
    pub read : (rc.read opened).0 ≡ (b, none)
    pub wrote : entry b (rc.read opened).1 ≡ (ok tt, copied)
    pub rest : pack_keys ctx fsys zw keys (rc.close copied) ≡ (ok tt, v)

  Reads-eq-ok :
      (key : Bytes) (entry : Bytes → Action W (Unit {0})) (keys : List Bytes) (w v : W)
      → (fsys.get ctx key >>= λ rc.
            deferred rc.close (io_copy entry rc.read) >> pack_keys ctx fsys zw keys)
          w
        ≡ (ok tt, v)
      → Reads key entry keys w v
  Reads-eq-ok key entry keys w v h =
      let next = λ (rc : ReadCloser W). deferred rc.close (io_copy entry rc.read) in
      let rest = pack_keys ctx fsys zw keys in
      let (rc, opened, got, h') = bind-eq-ok (fsys.get ctx key) (λ rc. next rc >> rest) w h in
      let (_, u, did, h'') = bind-eq-ok (next rc) (λ _. rest) opened h' in
      let (copied, into, closed) = deferred-eq rc.close (io_copy entry rc.read) opened did in
      let (b, read, wrote) = io_copy-eq-ok entry rc.read opened copied into in
      record {
        rc = rc;
        opened = opened;
        copied = copied;
        b = b;
        got = got;
        read = read;
        wrote = wrote;
        rest = ap rest (sym closed) ∙ h'';
      }

  -- One round of the loop: the entry is created for the key, and then written.
  pub record Creates (raw : Bytes) (keys : List Bytes) (w v : W) : Type 0 where
    pub key : Bytes
    pub header : FileHeader
    pub entry : Bytes → Action W (Unit {0})
    pub made_at : W
    pub created_at : W
    pub clean : clean_key raw ≡ ok key
    pub made : make_header ctx fsys zw key w ≡ (ok header, made_at)
    pub created : zw.create_header header made_at ≡ (ok entry, created_at)
    pub reads : Reads key entry keys created_at v

  pub Creates-eq-ok :
      (raw : Bytes) (keys : List Bytes) (w v : W)
      → pack_keys ctx fsys zw (raw ∷ keys) w ≡ (ok tt, v)
      → Creates raw keys w v
  unfolding pack_keys
  Creates-eq-ok raw keys w v h =
      let from_entry = λ (key : Bytes) (entry : Bytes → Action W (Unit {0})).
        fsys.get ctx key >>= λ rc.
        deferred rc.close (io_copy entry rc.read) >> pack_keys ctx fsys zw keys in
      let from_key = λ (key : Bytes).
        make_header ctx fsys zw key >>= λ h. zw.create_header h >>= from_entry key in
      let (_, w0, alive, h0) =
        bind-eq-ok (check ctx) (λ _. lift (clean_key raw) >>= from_key) w h in
      let (key, w1, clean, h1) = bind-eq-ok (lift (clean_key raw)) from_key w0 h0 in
      let start : w1 ≡ w = sym (check-eq-ok ctx w w0 alive ∙ ap (λ x. x.1) clean) in
      let (header, w2, made, h2) =
        bind-eq-ok (make_header ctx fsys zw key) (λ h. zw.create_header h >>= from_entry key) w1
          h1 in
      let (entry, w3, created, h3) = bind-eq-ok (zw.create_header header) (from_entry key) w2 h2 in
      record {
        key = key;
        header = header;
        entry = entry;
        made_at = w2;
        created_at = w3;
        clean = ap (λ x. x.0) clean;
        made = ap (make_header ctx fsys zw key) (sym start) ∙ made;
        created = created;
        reads = Reads-eq-ok key entry keys w3 v h3;
      }
