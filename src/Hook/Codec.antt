-- ===== src/Hook/Codec.antt =====
-- Hooks that encode what is written and decode what is read.
use vire_fs.Base.{ℕ, none, some, List, ◌≡◌, sym, ap, ◌∙◌}
use vire_fs.Bytes.{Bytes}
use vire_fs.Errors.{ok, ok-injective}
use vire_fs.Effect.{Context, bind-eq-ok}
use vire_fs.Fs.{Fs, Reader, ReadCloser, PutOption}
use vire_fs.Fs.Contents.{Contents, Unchanged}
use vire_fs.Fs.Store.{IsStore}
use vire_fs.Hook.{Hooks, apply_hook, succeed, with_hooks, put, get}

-- What the store is given is the encoding of what the caller gave, and what the caller reads is the
-- decoding of what the store holds.
pub record IsCodec {W : Type 0} (IsCalm : Reader W → Type 0) (content : Contents W)
    (encode decode : Bytes → Bytes → Bytes) (hooks : Hooks W) : Type 0 where
  pub put_reader :
      (key : Bytes) (r : Reader W) (w : W) → IsCalm r → IsCalm (apply_hook hooks.wrap_put key r w).0
  pub encodes :
      (key c : Bytes) (r : Reader W) (w u : W)
      → ((apply_hook hooks.wrap_put key r w).0 u).0 ≡ (c, none)
      → (at : W) × (b : Bytes) × ((r at).0 ≡ (b, none)) × (c ≡ encode key b)
  pub get_calm :
      (key : Bytes) (rc : ReadCloser W) (w : W)
      → Unchanged content w (apply_hook hooks.wrap_get key rc w).1
  pub decodes :
      (key b : Bytes) (rc : ReadCloser W) (w u : W)
      → ((apply_hook hooks.wrap_get key rc w).0.read u).0 ≡ (b, none)
      → (at : W) × (c : Bytes) × Unchanged content u at
        × ((rc.read at).0 ≡ (c, none))
        × (b ≡ decode key c)

module _ {W : Type 0} {IsValid : Bytes → Type 0} {IsCalm : Reader W → Type 0} {content : Contents W}
    {ctx : Context W} {inner : Fs W} (store : IsStore IsValid IsCalm content ctx inner)
    {encode decode : Bytes → Bytes → Bytes} {hooks : Hooks W}
    (codec : IsCodec IsCalm content encode decode hooks) (key : Bytes) (valid : IsValid key) where
  -- After a Put through the hooks the store holds the encoding of what was given.
  with_hooks-put :
      (i : ℕ) (r : Reader W) (opts : List PutOption) (w v : W)
      → IsCalm r
      → (with_hooks i inner hooks).put ctx key r opts w ≡ (ok tt, v)
      → (at : W) × (b : Bytes) × ((r at).0 ≡ (b, none)) × (content v key ≡ some (encode key b))
  unfolding with_hooks put
  with_hooks-put i r opts w v calm h =
      let (r', w') = apply_hook hooks.wrap_put key r w in
      let s = store.on_put key r' opts w' v valid (codec.put_reader key r w calm) h in
      let (at, b, given, encoded) = codec.encodes key s.bytes r w s.at s.given in
      (at, b, given, s.holds ∙ ap some encoded)

  -- What a Get through the hooks reads is the decoding of what the store held.
  with_hooks-get :
      (i : ℕ) (rc : ReadCloser W) (c : Bytes) (w u : W)
      → (with_hooks i inner hooks).get ctx key w ≡ (ok rc, u)
      → (rc.read u).0 ≡ (c, none)
      → (b : Bytes) × (content w key ≡ some b) × (c ≡ decode key b)
  unfolding with_hooks get
  with_hooks-get i rc c w u h read =
      let hook = λ (rc : ReadCloser W) (w : W). succeed (apply_hook hooks.wrap_get key rc w) in
      let (rc0, v, got, wrapped) = bind-eq-ok (inner.get ctx key) hook w h in
      let (still, opened) = store.on_get key rc0 w v valid got in
      let reader : (apply_hook hooks.wrap_get key rc0 v).0 ≡ rc =
        ok-injective (ap (λ x. x.0) wrapped) in
      let world : (apply_hook hooks.wrap_get key rc0 v).1 ≡ u = ap (λ x. x.1) wrapped in
      let (at, b, same, inside, decoded) =
        codec.decodes key c rc0 v u (ap (λ (x : ReadCloser W). (x.read u).0) reader ∙ read) in
      let kept : content at key ≡ content v key =
        same key ∙ ap (λ x. content x key) (sym world) ∙ codec.get_calm key rc0 v key in
      (b, sym (still key) ∙ opened.reads at b kept inside, decoded)

  -- Around a store that keeps its promises, with hooks that encode what is put and decode what is
  -- got, in such a way that decoding undoes encoding, a Get of a valid key reads what a Put of the
  -- key was given, while the store inside holds at the key what that Put left there.
  pub get-put_in_hooks :
      (i : ℕ) (r : Reader W) (opts : List PutOption) (rc : ReadCloser W) (c : Bytes) (w v x u : W)
      → ((b : Bytes) → decode key (encode key b) ≡ b)
      → IsCalm r
      → (with_hooks i inner hooks).put ctx key r opts w ≡ (ok tt, v)
      → content x key ≡ content v key
      → (with_hooks i inner hooks).get ctx key x ≡ (ok rc, u)
      → (rc.read u).0 ≡ (c, none)
      → (at : W) × ((r at).0 ≡ (c, none))
  get-put_in_hooks i r opts rc c w v x u inverse calm stored same got read =
      let (at, b, given, holds) = with_hooks-put i r opts w v calm stored in
      let (d, held, decoded) = with_hooks-get i rc c x u got read in
      let encoded : d ≡ encode key b = cc (sym held ∙ same ∙ holds) in
      (at, given ∙ ap (λ t. (t, none)) (sym (decoded ∙ ap (decode key) encoded ∙ inverse b)))
