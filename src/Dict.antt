-- ===== src/Dict.antt =====
-- Go maps with string keys, as association lists. A real map has each key once.
use mathlib.Core.HLevel.{¬_prop}
use mathlib.Core.Logic.Or
use mathlib.Core.List.{
  Mem, not-mem-nil, mem-cast, mem-cons_self, mem-cons_of_mem, eq-or-mem_of_mem-cons, Nodup,
  Nodup-nil, Nodup-cons,
}
use vire_fs.Base.{
  Option, none, some, List, [], ◌∷◌, if◌then◌else◌, ◌≡◌, ◌≢◌, ◌↔◌, refl, inl, inr, Bool-cases,
  arith,
}
use vire_fs.Bytes.{Bytes, equal, equal_iff}

module _ {V : Type 0} where
  -- `m[key]`
  unfoldable pub lookup : Bytes → List (Bytes × V) → Option V
  lookup key [] = none
  lookup key ((k, v) ∷ m) = if equal key k then some v else lookup key m

  -- `m[key] = v`
  unfoldable pub insert : Bytes → V → List (Bytes × V) → List (Bytes × V)
  insert key v [] = (key, v) ∷ []
  insert key v ((k, u) ∷ m) = if equal key k then (key, v) ∷ m else (k, u) ∷ insert key v m

  -- `delete(m, key)`
  unfoldable pub erase : Bytes → List (Bytes × V) → List (Bytes × V)
  erase key [] = []
  erase key ((k, u) ∷ m) = let rest = erase key m in if equal key k then rest else (k, u) ∷ rest

  pub lookup-insert :
      (key j : Bytes) (v : V) (m : List (Bytes × V))
      → lookup j (insert key v m) ≡ (if equal j key then some v else lookup j m)
  unfolding lookup insert
  lookup-insert key j v [] = refl
  lookup-insert key j v ((k, u) ∷ m) =
      ground (arith, equal_iff j key, equal_iff key k, equal_iff j k, lookup-insert key j v m)

  pub lookup-erase :
      (key j : Bytes) (m : List (Bytes × V))
      → lookup j (erase key m) ≡ (if equal j key then none else lookup j m)
  unfolding lookup erase
  lookup-erase key j [] = ground arith
  lookup-erase key j ((k, u) ∷ m) =
      ground (arith, equal_iff j key, equal_iff key k, equal_iff j k, lookup-erase key j m)

  -- Each key stands once.
  abbrev pub NodupKeys : List (Bytes × V) → Type 0
  NodupKeys [] = Unit
  NodupKeys ((k, v) ∷ m) = (lookup k m ≡ none) × NodupKeys m

  pub insert-NodupKeys :
      (key : Bytes) (v : V) (m : List (Bytes × V)) → NodupKeys m → NodupKeys (insert key v m)
  unfolding insert lookup
  insert-NodupKeys key v [] _ = (refl, tt)
  insert-NodupKeys key v ((k, u) ∷ m) (fresh, h) =
      ground (
        arith,
        equal_iff key k,
        equal_iff k key,
        insert-NodupKeys key v m h,
        lookup-insert key k v m,
      )

  pub erase-NodupKeys : (key : Bytes) (m : List (Bytes × V)) → NodupKeys m → NodupKeys (erase key m)
  unfolding erase lookup
  erase-NodupKeys key [] _ = tt
  erase-NodupKeys key ((k, u) ∷ m) (fresh, h) =
      ground (arith, equal_iff key k, erase-NodupKeys key m h, lookup-erase key k m)

  -- The keys, in the order of the list.
  abbrev pub keys : List (Bytes × V) → List Bytes
  keys [] = []
  keys ((k, v) ∷ m) = k ∷ keys m

  pub mem-keys : (key : Bytes) (m : List (Bytes × V)) → Mem key (keys m) ↔ (lookup key m ≢ none)
  unfolding lookup
  mem-keys key [] = ((λ i. absurd (not-mem-nil i)), (λ n. absurd (n refl)))
  mem-keys key ((k, v) ∷ m) = elim (Bool-cases (equal key k)) [
    | inl same ↦
        ((λ _. rw same (λ e. cc)), (λ _. mem-cast ((equal_iff key k).0 same) mem-cons_self))
    | inr other ↦
        let (to, from) = mem-keys key m in
        (
          (λ i. rw other (
              Or.elim ¬_prop (eq-or-mem_of_mem-cons i) (λ e. cc ((equal_iff key k).1 e, other))
                to)),
          (λ n. mem-cons_of_mem k (from (rw other at n))),
        )
  ]

  pub keys-Nodup : (m : List (Bytes × V)) → NodupKeys m → Nodup (keys m)
  keys-Nodup [] _ = Nodup-nil
  keys-Nodup ((k, v) ∷ m) (fresh, h) =
      Nodup-cons.1 ((λ i. (mem-keys k m).0 i fresh), keys-Nodup m h)
