-- ===== src/Object/Keys.antt =====
-- Keys of the store and keys in the bucket, as Put and List see them.
use vire_fs.Base.{
  none, [], ◌∷◌, ◌++◌, length, length-append, drop-append, lt→ltb, ◌≡◌, ◌≢◌, ◌<◌, refl, sym, ap,
  ◌∙◌, arith,
}
use vire_fs.Bytes.{Bytes}
use vire_fs.Errors.{ok, ok-injective}
use vire_fs.Key.{clean_key}
use vire_fs.Object.{ObjectFs, s3_key, place, apply_key_func}
use vire_fs.Object.Listing.{relative}

length-append_lt : (p s : Bytes) → s ≢ [] → length p < length (p ++ s)
length-append_lt p [] h = absurd (h refl)
length-append_lt p (c ∷ s) h = omega (arith, length-append p (c ∷ s))

module _ {W : Type 0} (o : ObjectFs W) where
  s3_key_of_plain :
      (key : Bytes) {cleaned s3k : Bytes}
      → o.key_func ≡ none
      → clean_key key ≡ ok cleaned
      → s3_key o key ≡ ok s3k
      → s3k ≡ o.base_prefix ++ cleaned
  unfolding s3_key
  s3_key_of_plain key {cleaned} {s3k} plain e f =
      ok-injective
        (sym f ∙ ap (place o) e ∙ ap (λ fn. ok (o.base_prefix ++ apply_key_func fn cleaned)) plain)

  relative-append :
      (cleaned : Bytes) → cleaned ≢ [] → relative o (o.base_prefix ++ cleaned) ≡ cleaned
  unfolding relative
  relative-append cleaned h =
      rw (lt→ltb _ _ (length-append_lt o.base_prefix cleaned h)) (drop-append o.base_prefix cleaned)

  -- Without a key function, an object that is put at a key is listed under the clean key, unless
  -- that is empty.
  relative-s3_key :
      (key : Bytes) {cleaned s3k : Bytes}
      → o.key_func ≡ none
      → clean_key key ≡ ok cleaned
      → cleaned ≢ []
      → s3_key o key ≡ ok s3k
      → relative o s3k ≡ cleaned
  relative-s3_key key {cleaned} plain e h f =
      rw (s3_key_of_plain key plain e f) (relative-append cleaned h)
