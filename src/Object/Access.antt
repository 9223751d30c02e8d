-- ===== src/Object/Access.antt =====
-- Access, by its priorities, and presigned requests.
use vire_fs.Base.{
  ℕ, ◌*◌, ◌==◌, ==_iff, ap, ◌∙◌, if◌then◌else◌, true, false, Option, none, some, [], ◌∷◌, ◌++◌,
  Option-cases, Bool-cases, inl, inr, ◌≡◌, ◌≢◌, refl, sym, subst, arith,
}
use vire_fs.Base.Int.{pos, negsuc}
use vire_fs.Bytes.{Bytes, slash, is_empty}
use vire_fs.Errors.{Error, op_error, not_supported, errors_is, Result, ok, err}
use vire_fs.Effect.{Context, pure, ◌>>=◌, map_error}
use vire_fs.Fs.{Duration, AccessInfo, PresignedRequest}
use vire_fs.Object.{ObjectFs, PresignApi, SignedRequest, s3_key}
use vire_fs.Object.Links.{
  ask, presigned, access, presign_get, expiry, by_presign, by_func, by_base_url, is_zero,
  default_access_expires,
}

is_empty→nil : (s : Bytes) → is_empty s ≡ true → s ≡ []
is_empty→nil [] h = refl
is_empty→nil (c ∷ s) h = ground arith

ne_of_is_empty : (s : Bytes) → is_empty s ≡ false → s ≢ []
ne_of_is_empty s h = cc

module _ {W : Type 0} (o : ObjectFs W) (ctx : Context W) where
  -- What Access makes of the answer of PresignGet.
  abbrev pub url_of : Bytes → Result PresignedRequest × W → Result AccessInfo × W
  url_of key (ok req, w) = (ok (record { path = []; url = req.url }), w)
  url_of key (err (op_error _ _ e), w) = (err (op_error "Access" key e), w)
  url_of key (err e, w) = (err e, w)

  -- The expiry of presigned URLs: what WithAccessExpires has set, or else 15 minutes.
  pub data Configured : Duration → Type 0 where
    as_set : o.access_expires ≢ pos 0 → Configured o.access_expires
    by_default : o.access_expires ≡ pos 0 → Configured (pos (15 * 60 * 1000000000))

  pos-injective : {m n : ℕ} → pos m ≡ pos n → m ≡ n
  pos-injective e = cc

  expiry-Configured : Configured (expiry o)
  expiry-Configured = by_value o.access_expires refl
    where
      by_value :
          (d : Duration)
          → o.access_expires ≡ d
          → Configured (if is_zero d then default_access_expires else d)
      by_value (pos n) e = elim (Bool-cases (n == 0)) [
        | inl unset ↦ rw unset (by_default (e ∙ ap pos ((==_iff n 0).0 unset)))
        | inr set ↦ rw set (
            subst Configured e
              (as_set (λ h. cc (rw ((==_iff n 0).1 (pos-injective (sym e ∙ h))) at set))))
      ]
      by_value (negsuc n) e = subst Configured e (as_set (rw e (λ h. cc)))

  -- The answers of Access at a key, where `s3k` is the key in the bucket: the first source that
  -- gives one is asked, and no later one.
  pub data Answers (key s3k : Bytes) (w : W) : Result AccessInfo × W → Type 0 where
    by_access_func :
        {info : AccessInfo} → ask o.access_func s3k ≡ some info → Answers key s3k w (ok info, w)
    by_presign_client :
        {pc : PresignApi W} {expires : Duration}
        → ask o.access_func s3k ≡ none
        → o.presign_client ≡ some pc
        → Configured expires
        → Answers key s3k w (url_of key (presign_get o ctx key expires w))
    by_public_url :
        ask o.access_func s3k ≡ none
        → o.presign_client ≡ none
        → o.base_url ≢ []
        → Answers key s3k w (ok (record { path = []; url = o.base_url ++ (slash ∷ s3k) }), w)
    refused :
        {e : Error}
        → ask o.access_func s3k ≡ none
        → o.presign_client ≡ none
        → o.base_url ≡ []
        → errors_is e not_supported ≡ true
        → Answers key s3k w (err e, w)

  url_of-presigned :
      (key : Bytes) (w : W) (r : Result SignedRequest × W)
      → url_of key
          ((map_error (op_error "PresignGet" key) (λ _. r) >>= λ req. pure (presigned req)) w)
        ≡ (map_error (op_error "Access" key) (λ _. r) >>= λ req.
              pure (record { path = []; url = req.url }))
            w
  url_of-presigned key w (ok req, v) = refl
  url_of-presigned key w (err e, v) = refl

  by_presign-url_of :
      (key : Bytes) {s3k : Bytes} {pc : PresignApi W} (w : W)
      → s3_key o key ≡ ok s3k
      → o.presign_client ≡ some pc
      → by_presign o ctx key s3k (some pc) w ≡ url_of key (presign_get o ctx key (expiry o) w)
  unfolding presign_get s3_key
  by_presign-url_of key w e p = rw (p, e) (sym (url_of-presigned key w _))

  by_base_url-Answers :
      (key s3k : Bytes) (w : W)
      → ask o.access_func s3k ≡ none
      → o.presign_client ≡ none
      → Answers key s3k w (by_base_url o key s3k w)
  by_base_url-Answers key s3k w declined no_client = elim (Bool-cases (is_empty o.base_url)) [
    | inl empty ↦ rw empty (refused declined no_client (is_empty→nil o.base_url empty) refl)
    | inr set ↦ rw set (by_public_url declined no_client (ne_of_is_empty o.base_url set))
  ]

  by_func-Answers :
      (key : Bytes) {s3k : Bytes} (w : W) (given : Option AccessInfo)
      → s3_key o key ≡ ok s3k
      → ask o.access_func s3k ≡ given
      → Answers key s3k w (by_func o ctx key s3k given w)
  by_func-Answers key w (some info) e given = by_access_func given
  by_func-Answers key {s3k} w none e declined = elim (Option-cases o.presign_client) [
    | inl no_client ↦
        subst (λ c. Answers key s3k w (by_presign o ctx key s3k c w)) (sym no_client)
          (by_base_url-Answers key s3k w declined no_client)
    | inr (pc, client) ↦
        subst (λ c. Answers key s3k w (by_presign o ctx key s3k c w)) (sym client)
          (subst (Answers key s3k w) (sym (by_presign-url_of key w e client))
            (by_presign_client declined client expiry-Configured))
  ]

  -- At a valid key Access gives what the access function does; if that gives nothing, the URL, or
  -- the error, of PresignGet with the expiry that is set, or else 15 minutes; without a presign
  -- client, the base URL and the key in the bucket; and without a base URL, ErrNotSupported.
  pub access-Answers :
      (key : Bytes) {s3k : Bytes} (w : W)
      → s3_key o key ≡ ok s3k
      → Answers key s3k w (access o ctx key w)
  unfolding access
  access-Answers key w e = rw e (by_func-Answers key w _ e refl)
