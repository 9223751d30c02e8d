-- ===== src/Object/Progress.antt =====
-- BatchDelete ends with success where nothing stands against it.
use vire_fs.Base.{ℕ, zero, suc, none, List, [], ◌∷◌, length, take, drop, ◌≡◌, refl, ◌≤◌, arith}
use vire_fs.Bytes.{Bytes}
use vire_fs.Errors.{ok}
use vire_fs.Effect.{Context}
use vire_fs.Object.{Aws, ObjectFs}
use vire_fs.Object.Bulk.{identifiers, batch_input, delete_batch, delete_batches, batch_delete}
use vire_fs.Object.Batches.{Placed, no_keys, one_more, length-drop, length-take}

module _ {W : Type 0} (o : ObjectFs W) where
  Placed-take :
      (m : ℕ) (keys : List Bytes) {s3ks : List Bytes}
      → Placed o keys s3ks
      → Placed o (take m keys) (take m s3ks)
  Placed-take zero keys p = no_keys
  Placed-take (suc m) [] no_keys = no_keys
  Placed-take (suc m) (key ∷ keys) (one_more e p) = one_more e (Placed-take m keys p)

  Placed-drop :
      (m : ℕ) (keys : List Bytes) {s3ks : List Bytes}
      → Placed o keys s3ks
      → Placed o (drop m keys) (drop m s3ks)
  Placed-drop zero keys p = p
  Placed-drop (suc m) [] no_keys = no_keys
  Placed-drop (suc m) (key ∷ keys) (one_more e p) = Placed-drop m keys p

  identifiers_of_Placed :
      {keys s3ks : List Bytes} (w : W) → Placed o keys s3ks → identifiers o keys w ≡ (ok s3ks, w)
  unfolding identifiers
  identifiers_of_Placed w no_keys = refl
  identifiers_of_Placed w (one_more e p) = rw (e, identifiers_of_Placed w p) refl

module _ (aws : Aws) {W : Type 0} (o : ObjectFs W) (ctx : Context W)
    (alive : (w : W) → ctx w ≡ none)
    (deletes : (objects : List Bytes) (w : W)
      → length objects ≤ 1000
      → (v : W) × (o.client.delete_objects ctx (batch_input o objects) w ≡ (ok [], v))) where
  delete_batches-succeeds :
      (n : ℕ) (keys : List Bytes) {s3ks : List Bytes} (w : W)
      → length keys ≤ n
      → Placed o keys s3ks
      → (w' : W) × (delete_batches aws o ctx n keys w ≡ (ok tt, w'))
  unfolding delete_batches delete_batch
  delete_batches-succeeds zero keys w h p = (w, refl)
  delete_batches-succeeds (suc n) [] w h p = (w, refl)
  delete_batches-succeeds (suc n) (key ∷ keys) {s3ks} w h p =
      let (v, e) = deletes (take 1000 s3ks) w (length-take 1000 s3ks) in
      let (w', f) =
        delete_batches-succeeds n (drop 999 keys) v (omega (arith, length-drop 999 keys))
          (Placed-drop o 1000 (key ∷ keys) p) in
      (w', rw (alive w, identifiers_of_Placed o w (Placed-take o 1000 (key ∷ keys) p), e) f)

  -- While the context lives and the client deletes every key of each request of at most 1000 keys,
  -- BatchDelete succeeds for keys that are all valid, however many there are.
  pub batch_delete-succeeds :
      (keys : List Bytes) {s3ks : List Bytes} (w : W)
      → Placed o keys s3ks
      → (w' : W) × (batch_delete aws o ctx keys w ≡ (ok tt, w'))
  unfolding batch_delete
  batch_delete-succeeds keys w p = delete_batches-succeeds (length keys) keys w (omega arith) p
