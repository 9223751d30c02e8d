-- ===== src/Object/Bulk.antt =====
-- objectfs.go: BatchDelete.
use vire_fs.Base.{ℕ, zero, suc, true, List, [], ◌∷◌, ◌++◌, length, take, drop}
use vire_fs.Bytes.{Bytes, codes}
use vire_fs.Bytes.Decimal.{decimal}
use vire_fs.Errors.{op_error, message}
use vire_fs.Effect.{Action, Context, pure, fail, ◌>>=◌, ◌>>◌, map_error, check}
use vire_fs.Object.{Aws, ObjectFs, DeleteError, DeleteObjectsInput, locate, report}

abbrev pub max_batch : ℕ
max_batch = 1000

module _ {W : Type 0} (o : ObjectFs W) where
  -- The keys of one batch in the bucket.
  unfoldable pub identifiers : List Bytes → Action W (List Bytes)
  identifiers [] = pure []
  identifiers (key ∷ keys) = do
    s3k ← locate o "BatchDelete" key
    rest ← identifiers keys
    pure (s3k ∷ rest)

  -- The parameters of the request for a batch.
  abbrev pub batch_input : List Bytes → DeleteObjectsInput
  batch_input objects = record { bucket = o.bucket; objects = objects; quiet = true }

module _ (aws : Aws) {W : Type 0} (o : ObjectFs W) where
  -- `len(out.Errors) > 0`: the first one is reported.
  abbrev pub first_error : List DeleteError → Action W (Unit {0})
  first_error [] = pure tt
  first_error (e ∷ _) = fail (
      op_error "BatchDelete" (aws.to_string e.key)
        (message "s3 error %s: %s" (aws.to_string e.code ∷ aws.to_string e.text ∷ [])))

  -- One batch and the call for it.
  unfoldable pub delete_batch : Context W → List Bytes → Action W (Unit {0})
  unfolding identifiers
  delete_batch ctx batch = do
    objects ← identifiers o batch
    errors ←
        report aws "BatchDelete" (decimal (length batch) ++ codes " keys")
          (o.client.delete_objects ctx (batch_input o objects))
    first_error errors

  -- The loop, at the keys that are left. Each round takes one key at least.
  unfoldable pub delete_batches : Context W → ℕ → List Bytes → Action W (Unit {0})
  unfolding delete_batch
  delete_batches ctx zero keys = pure tt
  delete_batches ctx (suc fuel) [] = pure tt
  delete_batches ctx (suc fuel) (key ∷ keys) = do
    map_error (op_error "BatchDelete" (decimal (suc (length keys)) ++ codes " keys remaining"))
        (check ctx)
    delete_batch ctx (take max_batch (key ∷ keys))
    delete_batches ctx fuel (drop max_batch (key ∷ keys))

  unfoldable pub batch_delete : Context W → List Bytes → Action W (Unit {0})
  unfolding delete_batches
  batch_delete ctx keys = delete_batches ctx (length keys) keys
