-- ===== src/Object/Batches.antt =====
-- BatchDelete asks the client to delete all keys, in requests of bounded size.
use vire_fs.Base.{
  ℕ, zero, suc, none, List, [], ◌∷◌, ◌++◌, length, take, drop, All, Option-cases, inl, inr, ◌⊎◌,
  ◌≡◌, refl, ap, ◌≤◌, arith,
}
use vire_fs.Bytes.{Bytes}
use vire_fs.Errors.{Error, op_error, Result, ok, err, Result-cases}
use vire_fs.Effect.{Context, Action, ◌>>=◌, then_run}
use vire_fs.Object.{Aws, ObjectFs, DeleteError, s3_key, report}
use vire_fs.Object.Bulk.{
  identifiers, batch_input, first_error, delete_batch, delete_batches, batch_delete,
}

pub length-take : {A : Type 0} (m : ℕ) (xs : List A) → length (take m xs) ≤ m
length-take zero xs = omega arith
length-take (suc m) [] = omega arith
length-take (suc m) (x ∷ xs) = omega (arith, length-take m xs)

pub length-drop : {A : Type 0} (m : ℕ) (xs : List A) → length (drop m xs) ≤ length xs
length-drop zero xs = omega arith
length-drop (suc m) [] = omega arith
length-drop (suc m) (x ∷ xs) = omega (arith, length-drop m xs)

abbrev pub concat : List (List Bytes) → List Bytes
concat [] = []
concat (r ∷ rs) = r ++ concat rs

module _ {W : Type 0} (o : ObjectFs W) where
  -- The second list has the keys in the bucket of the first one's.
  pub data Placed : List Bytes → List Bytes → Type 0 where
    no_keys : Placed [] []
    one_more :
        {key s3k : Bytes} {keys s3ks : List Bytes}
        → s3_key o key ≡ ok s3k
        → Placed keys s3ks
        → Placed (key ∷ keys) (s3k ∷ s3ks)

  Placed-append :
      (m : ℕ) (keys : List Bytes) {xs ys : List Bytes}
      → Placed (take m keys) xs
      → Placed (drop m keys) ys
      → Placed keys (xs ++ ys)
  Placed-append zero keys no_keys q = q
  Placed-append (suc m) [] no_keys q = q
  Placed-append (suc m) (key ∷ keys) (one_more e p) q = one_more e (Placed-append m keys p q)

  length-Placed : {keys s3ks : List Bytes} → Placed keys s3ks → length s3ks ≡ length keys
  length-Placed no_keys = refl
  length-Placed (one_more e p) = ap suc (length-Placed p)

  identifiers-cases :
      (keys : List Bytes) (w : W)
      → ((s3ks : List Bytes) × Placed keys s3ks × (identifiers o keys w ≡ (ok s3ks, w)))
        ⊎ ((e : Error) × (identifiers o keys w ≡ (err e, w)))
  unfolding identifiers
  identifiers-cases [] w = inl ([], no_keys, refl)
  identifiers-cases (key ∷ keys) w = elim (Result-cases (s3_key o key)) [
    | inr (e, bad) ↦ inr (op_error "BatchDelete" key e, rw bad refl)
    | inl (s3k, good) ↦ elim (identifiers-cases keys w) [
      | inl (s3ks, p, e) ↦ inl (s3k ∷ s3ks, one_more good p, rw (good, e) refl)
      | inr (e, bad) ↦ inr (e, rw (good, bad) refl)
    ]
  ]

module _ (aws : Aws) {W : Type 0} (o : ObjectFs W) (ctx : Context W) where
  -- The requests are made in turn, the context lives before each, and no key is refused.
  pub data Requested : W → List (List Bytes) → W → Type 0 where
    all_made : {w w' : W} → w ≡ w' → Requested w [] w'
    and_then :
        {w v w' : W} {request : List Bytes} {requests : List (List Bytes)}
        → ctx w ≡ none
        → o.client.delete_objects ctx (batch_input o request) w ≡ (ok [], v)
        → Requested v requests w'
        → Requested w (request ∷ requests) w'

  abbrev pub Bounded : List Bytes → Type 0
  Bounded request = length request ≤ 1000

  pub record AllRequested (w : W) (keys : List Bytes) (w' : W) : Type 0 where
    pub requests : List (List Bytes)
    pub covers : Placed o keys (concat requests)
    pub bounded : All Bounded requests
    pub made : Requested w requests w'

  abbrev OneMade : W → List Bytes → Result (Unit {0}) × W → Type 0
  OneMade w batch (err e, v) = Unit
  OneMade w batch (ok u, v) =
      (request : List Bytes) × Placed o batch request
      × (o.client.delete_objects ctx (batch_input o request) w ≡ (ok [], v))

  OneMade-first_error :
      (w : W) (batch request : List Bytes) (key : Bytes) (r : Result (List DeleteError) × W)
      → Placed o batch request
      → o.client.delete_objects ctx (batch_input o request) w ≡ r
      → OneMade w batch ((report aws "BatchDelete" key (λ _. r) >>= first_error aws o) w)
  OneMade-first_error w batch request key (err e, v) p q = tt
  OneMade-first_error w batch request key (ok [], v) p q = (request, p, q)
  OneMade-first_error w batch request key (ok (e ∷ es), v) p q = tt

  delete_batch-OneMade :
      (w : W) (batch : List Bytes) → OneMade w batch (delete_batch aws o ctx batch w)
  unfolding delete_batch
  delete_batch-OneMade w batch = elim (identifiers-cases o batch w) [
    | inr (e, bad) ↦ rw bad tt
    | inl (request, p, e) ↦ rw e (OneMade-first_error w batch request _ _ p refl)
  ]

  abbrev Outcome : W → List Bytes → Result (Unit {0}) × W → Type 0
  Outcome w keys (err e, w') = Unit
  Outcome w keys (ok u, w') = AllRequested w keys w'

  Outcome-cons :
      (w v : W) (keys request : List Bytes) (r : Result (Unit {0}) × W)
      → ctx w ≡ none
      → Placed o (take 1000 keys) request
      → o.client.delete_objects ctx (batch_input o request) w ≡ (ok [], v)
      → Outcome v (drop 1000 keys) r
      → Outcome w keys r
  Outcome-cons w v keys request (err e, w') alive p q h = tt
  Outcome-cons w v keys request (ok u, w') alive p q h = record {
    requests = request ∷ h.requests;
    covers = Placed-append o 1000 keys p h.covers;
    bounded = (omega (arith, length-Placed o p, length-take 1000 keys), h.bounded);
    made = and_then alive q h.made;
  }

  Outcome-step :
      (w : W) (keys : List Bytes) (r : Result (Unit {0}) × W) (next : Action W (Unit {0}))
      → ctx w ≡ none
      → OneMade w (take 1000 keys) r
      → ((v : W) → Outcome v (drop 1000 keys) (next v))
      → Outcome w keys (then_run r (λ _. next))
  Outcome-step w keys (err e, v) next alive made later = tt
  Outcome-step w keys (ok u, v) next alive (request, p, q) later =
      Outcome-cons w v keys request (next v) alive p q (later v)

  delete_batches-Outcome :
      (n : ℕ) (keys : List Bytes) (w : W)
      → length keys ≤ n
      → Outcome w keys (delete_batches aws o ctx n keys w)
  unfolding delete_batches
  delete_batches-Outcome zero [] w h = record {
    requests = [];
    covers = no_keys;
    bounded = tt;
    made = all_made refl;
  }
  delete_batches-Outcome (suc n) [] w h = record {
    requests = [];
    covers = no_keys;
    bounded = tt;
    made = all_made refl;
  }
  delete_batches-Outcome zero (key ∷ keys) w h = absurd (omega (arith, h))
  delete_batches-Outcome (suc n) (key ∷ keys) w h = elim (Option-cases (ctx w)) [
    | inr (e, dead) ↦ rw dead tt
    | inl alive ↦ rw alive (
        Outcome-step w (key ∷ keys) _ _ alive (delete_batch-OneMade w (take 1000 (key ∷ keys)))
          (λ v. delete_batches-Outcome n (drop 999 keys) v (omega (arith, length-drop 999 keys))))
  ]

  -- If BatchDelete succeeds, its requests to the client name the keys in the bucket of all given
  -- keys, in their order, at most 1000 in each, and each request succeeds with no key refused.
  pub batch_delete-AllRequested :
      (keys : List Bytes) (w w' : W)
      → batch_delete aws o ctx keys w ≡ (ok tt, w')
      → AllRequested w keys w'
  unfolding batch_delete
  batch_delete-AllRequested keys w w' e =
      rw e at (delete_batches-Outcome (length keys) keys w (omega arith))
