-- ===== src/Object/Store.antt =====
-- An object store as a store of the interface, over a bucket that does what S3 documents.
use mathlib.Core.List.{append_cancel_left}
use vire_fs.Base.{ℕ, none, List, ◌++◌, ◌∷◌, ◌≡◌, ◌≢◌, refl, ap, sym, ◌∙◌}
use vire_fs.Bytes.{Bytes, slash, codes}
use vire_fs.Errors.{Error, op_error, ok}
use vire_fs.Effect.{Context, map_error-eq-ok}
use vire_fs.Key.Laws.{IsKey, clean_key_of_IsKey}
use vire_fs.Fs.{Reader, ReadCloser, PutOption}
use vire_fs.Fs.Contents.{Contents, Unchanged, UnchangedBut, Opened, Keeps, Stored}
use vire_fs.Fs.Keyed.{
  Apart, keyed, held_of_key, held-Unchanged, held-Opened, held-UnchangedBut, held-Stored,
  held-copied,
}
use vire_fs.Fs.Store.{IsStore, copier-eq}
use vire_fs.Object.{
  Aws, ObjectFs, S3Api, PutObjectInput, CopyObjectInput, map_s3_error, s3_key, place,
  apply_key_func,
}
use vire_fs.Object.Objects.{input, put_input, get, put, delete, copy}
use vire_fs.Object.Interface.{as_fs}

-- What the client's calls do to the objects of one bucket. `source_of` is the key that the server
-- reads from a copy source, which it takes to be URL-encoded.
pub record Bucket {W : Type 0} (content : Contents W) (source_of : Bytes → Bytes) (bucket : Bytes)
    (ctx : Context W) (client : S3Api W) : Type 0 where
  pub get_object :
      (k : Bytes) (rc : ReadCloser W) (w v : W)
      → client.get_object ctx (record { bucket = bucket; key = k }) w ≡ (ok rc, v)
      → Unchanged content w v × Opened content k v rc
  pub put_object :
      (i : PutObjectInput W) (w v : W)
      → i.bucket ≡ bucket
      → Keeps content i.body
      → client.put_object ctx i w ≡ (ok tt, v)
      → Stored content i.body i.key w v
  pub delete_object :
      (k : Bytes) (w : W)
      → UnchangedBut content k w
          (client.delete_object ctx (record { bucket = bucket; key = k }) w).1
  pub deleted :
      (k : Bytes) (w v : W)
      → client.delete_object ctx (record { bucket = bucket; key = k }) w ≡ (ok tt, v)
      → content v k ≡ none
  pub copy_object :
      (source k : Bytes) (w v : W)
      → client.copy_object ctx (record { bucket = bucket; copy_source = source; key = k }) w
        ≡ (ok tt, v)
      → (content v k ≡ content w (source_of source))
        × UnchangedBut content k w v
        × (content w (source_of source) ≢ none)

-- Where a clean key lies in the bucket, without a key function.
abbrev pub object_key : {W : Type 0} → ObjectFs W → Bytes → Bytes
object_key o key = o.base_prefix ++ key

-- A clean key, whose key in the bucket needs no URL-encoding.
pub record IsPlainKey {W : Type 0} (source_of : Bytes → Bytes) (o : ObjectFs W) (key : Bytes)
    : Type 0 where
  pub clean : IsKey key
  pub unescaped : source_of (o.bucket ++ (slash ∷ object_key o key)) ≡ object_key o key

object_key-Apart : {W : Type 0} (o : ObjectFs W) → Apart (object_key o)
object_key-Apart o key q k k' same = append_cancel_left o.base_prefix q key same

module _ (aws : Aws) {W : Type 0} (content : Contents W) (source_of : Bytes → Bytes)
    (o : ObjectFs W) (ctx : Context W) (b : Bucket content source_of o.bucket ctx o.client)
    (plain : o.key_func ≡ none) where
  located : (key : Bytes) → IsKey key → s3_key o key ≡ ok (object_key o key)
  unfolding s3_key
  located key k =
      ap (place o) (clean_key_of_IsKey k)
      ∙ ap (λ f. ok (o.base_prefix ++ apply_key_func f key)) plain

  abbrev held : Contents W
  held = keyed content (object_key o)

  get-held :
      (key : Bytes) (rc : ReadCloser W) (w v : W)
      → IsKey key
      → get aws o ctx key w ≡ (ok rc, v)
      → Unchanged held w v × Opened held key v rc
  unfolding get
  get-held key rc w v k h =
      let (calm, from) = b.get_object (object_key o key) rc w v (
        map_error-eq-ok (λ e. op_error "Get" key (map_s3_error aws e))
          (o.client.get_object ctx (input o (object_key o key))) w (rw (located key k) at h)) in
      (
        held-Unchanged content (object_key o) w v calm,
        held-Opened content (object_key o) key v rc k from,
      )

  put-held :
      (key : Bytes) (r : Reader W) (opts : List PutOption) (w v : W)
      → IsKey key
      → Keeps content r
      → put aws o ctx key r opts w ≡ (ok tt, v)
      → Stored held r key w v
  unfolding put
  put-held key r opts w v k still h =
      held-Stored content (object_key o) (object_key-Apart o) key r w v k (
        b.put_object (put_input o (object_key o key) r opts) w v refl still (
          map_error-eq-ok (λ e. op_error "Put" key (map_s3_error aws e))
            (o.client.put_object ctx (put_input o (object_key o key) r opts)) w
            (rw (located key k) at h)))

  delete-UnchangedBut :
      (key : Bytes) (w : W)
      → IsKey key
      → UnchangedBut content (object_key o key) w (delete aws o ctx key w).1
  unfolding delete
  delete-UnchangedBut key w k q ne = rw (located key k) (b.delete_object (object_key o key) w q ne)

  delete-none :
      (key : Bytes) (w v : W) → IsKey key → delete aws o ctx key w ≡ (ok tt, v) → held v key ≡ none
  unfolding delete
  delete-none key w v k h =
      held_of_key content (object_key o) key v k
      ∙ b.deleted (object_key o key) w v (
          map_error-eq-ok (λ e. op_error "Delete" key (map_s3_error aws e))
            (o.client.delete_object ctx (input o (object_key o key))) w (rw (located key k) at h))

  copy-held :
      (src_key dst_key : Bytes) (w v : W)
      → IsPlainKey source_of o src_key
      → IsKey dst_key
      → copy aws o ctx src_key dst_key w ≡ (ok tt, v)
      → (held v dst_key ≡ held w src_key) × UnchangedBut held dst_key w v × (held w src_key ≢ none)
  unfolding copy
  copy-held src_key dst_key w v k k' h =
      let source = o.bucket ++ (slash ∷ object_key o src_key) in
      let i : CopyObjectInput = record {
        bucket = o.bucket;
        copy_source = source;
        key = object_key o dst_key;
      } in
      let (same, others, found) = b.copy_object source (object_key o dst_key) w v (
        map_error-eq-ok
          (λ e. op_error "Copy" (src_key ++ codes " -> " ++ dst_key) (map_s3_error aws e))
          (o.client.copy_object ctx i) w (rw (located src_key k.clean, located dst_key k') at h)) in
      held-copied content (object_key o) (object_key-Apart o) src_key dst_key w v k.clean k'
        (same ∙ ap (content w) k.unescaped) others
        (λ missing. found (ap (content w) k.unescaped ∙ missing))

-- An object store without a key function, over a bucket that does what S3 documents, keeps the
-- promises of a store for clean keys whose keys in the bucket need no URL-encoding.
pub object-IsStore :
    {W : Type 0} (aws : Aws) (content : Contents W) (source_of : Bytes → Bytes) (pages : ℕ)
    (unended : Error) (identity : ℕ) (o : ObjectFs W) (ctx : Context W)
    → Bucket content source_of o.bucket ctx o.client
    → o.key_func ≡ none
    → IsStore
        (IsPlainKey source_of o)
        (Keeps content)
        (keyed content (object_key o))
        ctx
        (as_fs aws pages unended identity o)
unfolding as_fs
object-IsStore aws content source_of pages unended identity o ctx b plain = record {
  on_get = λ key rc w v k h. get-held aws content source_of o ctx b plain key rc w v k.clean h;
  on_put = λ key r opts w v k still h.
      put-held aws content source_of o ctx b plain key r opts w v k.clean still h;
  on_delete = λ key w k.
      held-UnchangedBut content (object_key o) (object_key-Apart o) key w (delete aws o ctx key w).1
        k.clean (delete-UnchangedBut aws content source_of o ctx b plain key w k.clean);
  deleted = λ key w v k h. delete-none aws content source_of o ctx b plain key w v k.clean h;
  on_copy = λ native src_key dst_key w v same k k' ne h.
      copy-held aws content source_of o ctx b plain src_key dst_key w v k k'.clean
        (ap (λ f. f ctx src_key dst_key w) (sym (copier-eq same)) ∙ h);
}
