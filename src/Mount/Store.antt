-- ===== src/Mount/Store.antt =====
-- The mount table as a store of the interface.
use vire_fs.Base.{
  ℕ, none, some, List, [], ◌∷◌, ◌++◌, ◌≡◌, ◌≢◌, refl, ap, ◌∙◌, sym, subst, Option-cases, inl, inr,
}
use vire_fs.Bytes.{Bytes, slash}
use vire_fs.Errors.{wrap, ok}
use vire_fs.Effect.{
  Action, Context, ◌>>=◌, bind-eq-ok, map_error, map_error-eq-ok, deferred, deferred-eq,
}
use vire_fs.Fs.{Fs, Reader, ReadCloser, PutOption, Copier, native_copier}
use vire_fs.Fs.Contents.{Contents, Unchanged, UnchangedBut, Opened, Keeps, Stored}
use vire_fs.Fs.Store.{IsStore, copier-eq}
use vire_fs.Fs.Transfer.{native_copier-eq}
use vire_fs.Mount.{MountTable, resolve, get, put, delete, copy_resolved, copy_between, copy, as_fs}
use vire_fs.Mount.Routing.{resolve_of_dead}
use vire_fs.Mount.Forward.{resolve_of_Routed}
use vire_fs.Mount.Parts.{whole, IsRoute, Wrote, Mounted, sub_key, IsRoute-Routed, whole-sub_key}

module _ {W : Type 0} (IsValid : Bytes → Bytes → Type 0) (content : Bytes → Contents W)
    (ctx : Context W) (mt : MountTable W) (parts : Mounted IsValid content ctx mt) where
  abbrev all : Contents W
  all = whole content

  -- An operation on a key of the table that succeeds is that of the mounted store.
  resolved-eq-ok :
      {A : Type 0} (op : Fs W → Bytes → Action W A) (key : Bytes) (r : IsRoute IsValid mt key)
      {a : A} {w v : W}
      → (resolve mt ctx key >>= λ p. op p.0 p.1) w ≡ (ok a, v)
      → op r.store (sub_key r) w ≡ (ok a, v)
  resolved-eq-ok op key r {w} h = elim (Option-cases (ctx w)) [
    | inr (e, dead) ↦ cc (rw (resolve_of_dead mt ctx key dead) at h)
    | inl alive ↦ rw (resolve_of_Routed mt ctx w alive (IsRoute-Routed ctx r)) at h
  ]

  whole-Opened :
      (key : Bytes) (r : IsRoute IsValid mt key) (v : W) (rc : ReadCloser W)
      → Opened (content r.name) (sub_key r) v rc
      → Keeps all rc.read
      → ((u : W) → Unchanged all u (rc.close u))
      → Opened all key v rc
  whole-Opened key r v rc o keeps closes = record {
    reads = λ w b same e.
        whole-sub_key content v r
        ∙ o.reads w b (sym (whole-sub_key content w r) ∙ same ∙ whole-sub_key content v r) e;
    keeps = keeps;
    closes = closes;
  }

  put-Wrote :
      (key : Bytes) (r : IsRoute IsValid mt key) (from : Reader W) (opts : List PutOption) (w v : W)
      → Keeps all from
      → r.store.put ctx (sub_key r) from opts w ≡ (ok tt, v)
      → Wrote content from r.name (sub_key r) w v
  put-Wrote key r from opts w v keeps h =
      parts.on_put r.name r.store (sub_key r) from opts w v r.mounted r.valid keeps h

  -- What stays under another key than the one of the route.
  but-normal :
      (key : Bytes) (r : IsRoute IsValid mt key) (w v : W)
      → UnchangedBut all (r.name ++ slash ∷ sub_key r) w v
      → UnchangedBut all key w v
  but-normal key r w v h q ne = h q (λ same. ne (same ∙ sym r.normal))

  Wrote-Stored :
      (key : Bytes) (r : IsRoute IsValid mt key) (from : Reader W) (w v : W)
      → Wrote content from r.name (sub_key r) w v
      → Stored all from key w v
  Wrote-Stored key r from w v s = record {
    at = s.at;
    bytes = s.bytes;
    given = s.given;
    holds = whole-sub_key content v r ∙ s.holds;
    others = λ q c ne there. but-normal key r w v s.others q ne ∙ there;
  }

  abbrev CopiedTo : Bytes → Bytes → W → W → Type 0
  CopiedTo src_key dst_key w v =
      (all v dst_key ≡ all w src_key) × UnchangedBut all dst_key w v × (all w src_key ≢ none)

  -- The copy by Get and Put.
  transfer-CopiedTo :
      (src_key dst_key : Bytes) (p : IsRoute IsValid mt src_key) (q : IsRoute IsValid mt dst_key)
      (w v : W)
      → src_key ≢ dst_key
      → native_copier p.store q.store ≡ none
      → copy_resolved ctx src_key p.store (sub_key p) q.store (sub_key q) w ≡ (ok tt, v)
      → CopiedTo src_key dst_key w v
  unfolding copy_resolved
  transfer-CopiedTo src_key dst_key p q w v ne plain h =
      let wrap_get = wrap "mount copy: get %q: %w" (src_key ∷ []) in
      let put_from =
        λ (rc : ReadCloser W). deferred rc.close (q.store.put ctx (sub_key q) rc.read []) in
      let (rc, x, got, h') =
        bind-eq-ok (map_error wrap_get (p.store.get ctx (sub_key p))) put_from w
          (rw (plain, copy_resolved) at h) in
      let (u, wrote, closed) = deferred-eq rc.close (q.store.put ctx (sub_key q) rc.read []) x h' in
      let (calm, opened, keeps, closes) =
        parts.on_get p.name p.store (sub_key p) rc w x p.mounted p.valid
          (map_error-eq-ok wrap_get (p.store.get ctx (sub_key p)) w got) in
      let s = put-Wrote dst_key q rc.read [] x u keeps wrote in
      let read : all x src_key ≡ some s.bytes =
        (whole-Opened src_key p x rc opened keeps closes).reads s.at s.bytes
          (but-normal dst_key q x s.at s.calm src_key ne) s.given in
      let held : all w src_key ≡ some s.bytes = sym (calm src_key) ∙ read in
      let after : Unchanged all u v = λ k. ap (λ y. all y k) closed ∙ closes u k in
      (
        after dst_key ∙ whole-sub_key content u q ∙ s.holds ∙ sym held,
        λ k other. after k ∙ but-normal dst_key q x u s.others k other ∙ calm k,
        λ missing. cc,
      )

  native-CopiedTo :
      (src_key dst_key : Bytes) (p : IsRoute IsValid mt src_key) (q : IsRoute IsValid mt dst_key)
      (native : Copier W) (w v : W)
      → src_key ≢ dst_key
      → native_copier p.store q.store ≡ some native
      → copy_resolved ctx src_key p.store (sub_key p) q.store (sub_key q) w ≡ (ok tt, v)
      → CopiedTo src_key dst_key w v
  unfolding copy_resolved
  native-CopiedTo src_key dst_key p q native w v ne own h =
      let (one, has) = native_copier-eq p.store q.store own in
      let names : q.name ≡ p.name =
        sym (parts.one_name p.name q.name p.store q.store p.mounted q.mounted one) in
      let keys : p.name ++ slash ∷ sub_key q ≡ dst_key =
        ap (λ n. n ++ slash ∷ sub_key q) (sym names) ∙ sym q.normal in
      let (same, others, found) =
        parts.on_copy p.name p.store native (sub_key p) (sub_key q) w v p.mounted has p.valid
          (subst (λ n. IsValid n (sub_key q)) names q.valid)
          (λ subs. ne (p.normal ∙ ap (λ k. p.name ++ slash ∷ k) subs ∙ keys))
          (rw (own, copy_resolved) at h) in
      let from = whole-sub_key content w p in
      (
        whole-sub_key content v q ∙ ap (λ n. content n v (sub_key q)) names ∙ same ∙ sym from,
        λ k other. others k (λ at. other (at ∙ keys)),
        λ missing. found (sym from ∙ missing),
      )

  copy-CopiedTo :
      (src_key dst_key : Bytes) (p : IsRoute IsValid mt src_key) (q : IsRoute IsValid mt dst_key)
      (w v : W)
      → src_key ≢ dst_key
      → copy mt ctx src_key dst_key w ≡ (ok tt, v)
      → CopiedTo src_key dst_key w v
  unfolding copy copy_between
  copy-CopiedTo src_key dst_key p q w v ne h =
      let finish = λ (src : Fs W) (src_sub : Bytes) (dst : Fs W) (dst_sub : Bytes).
        copy_resolved ctx src_key src src_sub dst dst_sub in
      let h' =
        resolved-eq-ok (λ src src_sub. resolve mt ctx dst_key >>= λ d. finish src src_sub d.0 d.1)
          src_key p h in
      let done = resolved-eq-ok (finish p.store (sub_key p)) dst_key q h' in
      elim (Option-cases (native_copier p.store q.store)) [
        | inl plain ↦ transfer-CopiedTo src_key dst_key p q w v ne plain done
        | inr (native, own) ↦ native-CopiedTo src_key dst_key p q native w v ne own done
      ]

  delete-UnchangedBut :
      (key : Bytes) (r : IsRoute IsValid mt key) (w : W)
      → UnchangedBut all key w (delete mt ctx key w).1
  unfolding delete
  delete-UnchangedBut key r w = elim (Option-cases (ctx w)) [
    | inr (e, dead) ↦ rw (resolve_of_dead mt ctx key dead) (λ q ne. refl)
    | inl alive ↦ rw (resolve_of_Routed mt ctx w alive (IsRoute-Routed ctx r)) (
        but-normal key r w (r.store.delete ctx (sub_key r) w).1
          (parts.on_delete r.name r.store (sub_key r) w r.mounted r.valid))
  ]

  -- A mount table over stores that keep their promises, and share nothing, is a store that keeps
  -- its promises: of Get, Put, Delete and Copy, for keys in normal form of files in the mounted
  -- stores, and for readers that leave the contents of all of them alone.
  pub as_fs-IsStore_of_parts :
      (identity : ℕ) (iterate : List (Bytes × Fs W) → List (Bytes × Fs W))
      → IsStore
          (IsRoute IsValid mt)
          (Keeps (whole content))
          (whole content)
          ctx
          (as_fs identity iterate mt)
  unfolding as_fs get put delete
  as_fs-IsStore_of_parts identity iterate = record {
    on_get = λ key rc w v r h.
        let (calm, opened, keeps, closes) =
          parts.on_get r.name r.store (sub_key r) rc w v r.mounted r.valid
            (resolved-eq-ok (λ fs sub. fs.get ctx sub) key r h) in
        (calm, whole-Opened key r v rc opened keeps closes);
    on_put = λ key from opts w v r keeps h. Wrote-Stored key r from w v (
        put-Wrote key r from opts w v keeps
          (resolved-eq-ok (λ fs sub. fs.put ctx sub from opts) key r h));
    on_delete = λ key w r. delete-UnchangedBut key r w;
    deleted = λ key w v r h.
        whole-sub_key content v r
        ∙ parts.deleted r.name r.store (sub_key r) w v r.mounted r.valid
            (resolved-eq-ok (λ fs sub. fs.delete ctx sub) key r h);
    on_copy = λ native src_key dst_key w v same p q ne h.
        copy-CopiedTo src_key dst_key p q w v ne
          (ap (λ f. f ctx src_key dst_key w) (sym (copier-eq same)) ∙ h);
  }
