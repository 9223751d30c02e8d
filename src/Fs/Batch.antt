-- ===== src/Fs/Batch.antt =====
-- What `BatchDelete` does with a store that has no bulk operation of its own.
use vire_fs.Base.{none, some, List, [], ◌∷◌, ◌++◌, Option-cases, ◌⊎◌, ◌↔◌, inl, inr, ◌≡◌, refl, ap}
use vire_fs.Bytes.{Bytes}
use vire_fs.Errors.{Error, Result, ok, err}
use vire_fs.Effect.{Context, then_run}
use vire_fs.Fs.{Fs, delete_each, batch_delete}

module _ {W : Type 0} (ctx : Context W) (fs : Fs W) where
  -- The keys are deleted in turn, each by a call that succeeds, and the context lives before each.
  pub data Deleted : W → List Bytes → W → Type 0 where
    all_done : {w w' : W} → w ≡ w' → Deleted w [] w'
    and_then :
        {w v w' : W} {key : Bytes} {keys : List Bytes}
        → ctx w ≡ none
        → fs.delete ctx key w ≡ (ok tt, v)
        → Deleted v keys w'
        → Deleted w (key ∷ keys) w'

  -- All keys before some key are deleted, and then the context or that key's call gives the error.
  pub record StopsAt (w : W) (keys : List Bytes) (e : Error) (w' : W) : Type 0 where
    pub done : List Bytes
    pub key : Bytes
    pub rest : List Bytes
    pub before : W
    pub splits : keys ≡ done ++ key ∷ rest
    pub deleted : Deleted w done before
    pub stopped :
        ((ctx before ≡ some e) × (w' ≡ before))
        ⊎ ((ctx before ≡ none) × (fs.delete ctx key before ≡ (err e, w')))

  abbrev Outcome : W → List Bytes → Result (Unit {0}) × W → Type 0
  Outcome w keys (ok u, w') = Deleted w keys w'
  Outcome w keys (err e, w') = StopsAt w keys e w'

  Outcome-cons :
      (w v : W) (key : Bytes) (keys : List Bytes) (r : Result (Unit {0}) × W)
      → ctx w ≡ none
      → fs.delete ctx key w ≡ (ok tt, v)
      → Outcome v keys r
      → Outcome w (key ∷ keys) r
  Outcome-cons w v key keys (ok u, w') p q h = and_then p q h
  Outcome-cons w v key keys (err e, w') p q h = record {
    done = key ∷ h.done;
    key = h.key;
    rest = h.rest;
    before = h.before;
    splits = ap (◌∷◌ key) h.splits;
    deleted = and_then p q h.deleted;
    stopped = h.stopped;
  }

  Outcome-step :
      (w : W) (key : Bytes) (keys : List Bytes) (r : Result (Unit {0}) × W)
      → ctx w ≡ none
      → fs.delete ctx key w ≡ r
      → ((v : W) → Outcome v keys (delete_each ctx fs keys v))
      → Outcome w (key ∷ keys) (then_run r (λ _. delete_each ctx fs keys))
  Outcome-step w key keys (ok u, v) p q later = Outcome-cons w v key keys _ p q (later v)
  Outcome-step w key keys (err e, v) p q later = record {
    done = [];
    key = key;
    rest = keys;
    before = w;
    splits = refl;
    deleted = all_done refl;
    stopped = inr (p, q);
  }

  delete_each-Outcome : (w : W) (keys : List Bytes) → Outcome w keys (delete_each ctx fs keys w)
  unfolding delete_each
  delete_each-Outcome w [] = all_done refl
  delete_each-Outcome w (key ∷ keys) = elim (Option-cases (ctx w)) [
    | inl alive ↦
        rw alive (
          Outcome-step w key keys (fs.delete ctx key w) alive refl
            (λ v. delete_each-Outcome v keys))
    | inr (e, dead) ↦ rw dead (record {
      done = [];
      key = key;
      rest = keys;
      before = w;
      splits = refl;
      deleted = all_done refl;
      stopped = inl (dead, refl);
    })
  ]

  delete_each_of_Deleted :
      {w w' : W} {keys : List Bytes} → Deleted w keys w' → delete_each ctx fs keys w ≡ (ok tt, w')
  unfolding delete_each
  delete_each_of_Deleted (all_done e) = ap (λ v. (ok tt, v)) e
  delete_each_of_Deleted (and_then p q h) = rw (p, q) (delete_each_of_Deleted h)

  batch_delete-delete_each :
      (keys : List Bytes)
      → fs.batch_deleter ≡ none
      → batch_delete ctx fs keys ≡ delete_each ctx fs keys
  unfolding batch_delete
  batch_delete-delete_each keys plain = rw (plain, batch_delete)

  -- With no bulk operation, `batch_delete` succeeds exactly when every key is deleted in turn.
  pub batch_delete-ok_iff :
      (keys : List Bytes) (w w' : W)
      → fs.batch_deleter ≡ none
      → (batch_delete ctx fs keys w ≡ (ok tt, w')) ↔ Deleted w keys w'
  batch_delete-ok_iff keys w w' plain =
      rw (batch_delete-delete_each keys plain)
        (λ e. rw e at (delete_each-Outcome w keys), delete_each_of_Deleted)
