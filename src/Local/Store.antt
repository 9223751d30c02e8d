-- ===== src/Local/Store.antt =====
-- A local store as a store of the interface, by its keys.
use vire_fs.Base.{ℕ, none, ◌≡◌, ◌≢◌, ap, sym, ◌∙◌, Option-cases, inl, inr}
use vire_fs.Bytes.{Bytes}
use vire_fs.Errors.{op_error, ok}
use vire_fs.Effect.{Context, map_error-eq-ok}
use vire_fs.Key.Laws.{IsKey}
use vire_fs.Fs.{ReadCloser}
use vire_fs.Fs.Contents.{Contents, Unchanged, UnchangedBut, Opened, ReadsFrom-Opened, Keeps}
use vire_fs.Fs.Store.{IsStore, copier-eq}
use vire_fs.Local.{Os, LocalFs, map_os_error}
use vire_fs.Local.Operations.{mapped, get, delete, copy, as_fs}
use vire_fs.Fs.Keyed.{
  keyed, held_of_key, held-Unchanged, held-Opened, held-UnchangedBut, held-Stored, held-copied,
}
use vire_fs.Local.Keyed.{IsRooted, path, path-Apart, located}
use vire_fs.Local.FileSystem.{FileSystem}
use vire_fs.Local.Contents.{start-bind-eq-ok, put-Stored}
use vire_fs.Local.Copying.{copy-content}

module _ {W : Type 0} (content : Contents W) (os : Os W) (l : LocalFs) (rooted : IsRooted l)
    (fs : FileSystem content os) (ctx : Context W) where
  abbrev held : Contents W
  held = keyed content (path l)

  get-held :
      (key : Bytes) (rc : ReadCloser W) (w v : W)
      → IsKey key
      → get os l ctx key w ≡ (ok rc, v)
      → Unchanged held w v × Opened held key v rc
  unfolding get
  get-held key rc w v k h =
      let opened =
        map_error-eq-ok (λ e. op_error "Get" key (map_os_error os e)) (os.open_file (path l key)) w
          (start-bind-eq-ok os l "Get" ctx key (λ p. mapped os l "Get" key (os.open_file p)) w
            (located l rooted os key w k) h) in
      let (calm, from) = fs.open_file (path l key) rc w v opened in
      (
        held-Unchanged content (path l) w v calm,
        held-Opened content (path l) key v rc k (ReadsFrom-Opened content (path l key) v rc from),
      )

  removed :
      (key : Bytes) (w v : W)
      → IsKey key
      → delete os l ctx key w ≡ (ok tt, v)
      → os.remove (path l key) w ≡ (ok tt, v)
  unfolding delete
  removed key w v k h =
      map_error-eq-ok (λ e. op_error "Delete" key (map_os_error os e)) (os.remove (path l key)) w
        (start-bind-eq-ok os l "Delete" ctx key (λ p. mapped os l "Delete" key (os.remove p)) w
          (located l rooted os key w k) h)

  -- Whether it succeeds or not, Delete removes no other file.
  delete-UnchangedBut :
      (key : Bytes) (w : W)
      → IsKey key
      → UnchangedBut content (path l key) w (delete os l ctx key w).1
  unfolding delete
  delete-UnchangedBut key w k q ne = elim (Option-cases (ctx w)) [
    | inr (e, dead) ↦ rw dead
    | inl alive ↦ rw (alive, located l rooted os key w k) (fs.remove (path l key) w q ne)
  ]

  copy-held :
      (src_key dst_key : Bytes) (w v : W)
      → IsKey src_key
      → IsKey dst_key
      → src_key ≢ dst_key
      → copy os l ctx src_key dst_key w ≡ (ok tt, v)
      → (held v dst_key ≡ held w src_key) × UnchangedBut held dst_key w v × (held w src_key ≢ none)
  copy-held src_key dst_key w v k k' ne h =
      let (same, others, found) =
        copy-content content os fs l ctx src_key dst_key w v (located l rooted os src_key w k)
          (located l rooted os dst_key w k') h
          (λ at. ne (path-Apart l rooted dst_key src_key k' k at)) in
      held-copied content (path l) (path-Apart l rooted) src_key dst_key w v k k' same others found

-- A local store without a key function, on a disk where different paths are different files, keeps
-- the promises of a store for clean keys, with or without atomic writes.
pub as_fs-IsStore :
    {W : Type 0} (content : Contents W) (os : Os W) (type_by_extension : Bytes → Bytes)
    (identity : ℕ) (l : LocalFs) (ctx : Context W)
    → FileSystem content os
    → IsRooted l
    → IsStore IsKey
        (Keeps content)
        (keyed content (path l))
        ctx
        (as_fs os type_by_extension identity l)
unfolding as_fs
as_fs-IsStore {W} content os type_by_extension identity l ctx fs rooted = record {
  on_get = λ key rc w v k h. get-held content os l rooted fs ctx key rc w v k h;
  on_put = λ key r opts w v k still h.
      held-Stored content (path l) (path-Apart l rooted) key r w v k
        (put-Stored content os fs l ctx key r still opts w (located l rooted os key w k) v h);
  on_delete = λ key w k.
      held-UnchangedBut content (path l) (path-Apart l rooted) key w (delete os l ctx key w).1 k
        (delete-UnchangedBut content os l rooted fs ctx key w k);
  deleted = λ key w v k h.
      held_of_key content (path l) key v k
      ∙ fs.removed (path l key) w v (removed content os l rooted fs ctx key w v k h);
  on_copy = λ native src_key dst_key w v same k k' ne h.
      copy-held content os l rooted fs ctx src_key dst_key w v k k' ne
        (ap (λ f. f ctx src_key dst_key w) (sym (copier-eq same)) ∙ h);
}
