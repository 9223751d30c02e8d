-- ===== src/Hook/Laws.antt =====
-- Each operation of a store in hooks, by the outcome of the store inside.
use vire_fs.Base.{ℕ, none, ◌≡◌, refl, sym}
use vire_fs.Errors.{Result, ok, err}
use vire_fs.Effect.{then_run}
use vire_fs.Fs.{Fs}
use vire_fs.Hook.{Hooks, with_hooks, base_fs}

abbrev pub no_hooks : {W : Type 0} → Hooks W
no_hooks = record { wrap_get = none; wrap_put = none; after_stat = none; on_delete = none }

then_run-ok : {W A : Type 0} (r : Result A × W) → then_run r (λ a w. (ok a, w)) ≡ r
then_run-ok (ok a, w) = refl
then_run-ok (err e, w) = refl

-- The store without its optional interfaces, at another address.
abbrev plain : {W : Type 0} → ℕ → Fs W → Fs W
plain identity inner = record inner { identity = identity; copier = none; batch_deleter = none }

-- With no hook set, a store in hooks is the store inside, less its optional interfaces.
with_hooks-no_hooks :
    {W : Type 0} (identity : ℕ) (inner : Fs W)
    → with_hooks identity inner no_hooks ≡ plain identity inner
unfolding with_hooks
with_hooks-no_hooks identity inner = λ i. record {
  identity = identity;
  get = λ ctx key w. then_run-ok (inner.get ctx key w) i;
  put = inner.put;
  delete = λ ctx key w. then_run-ok (inner.delete ctx key w) i;
  list = inner.list;
  stat = λ ctx key w. then_run-ok (inner.stat ctx key w) i;
  access = inner.access;
  exists = inner.exists;
  copier = none;
  batch_deleter = none;
}

-- `BaseFS` adds nothing to the store that it forwards to.
base_fs-with_hooks :
    {W : Type 0} (identity : ℕ) (inner : Fs W)
    → base_fs identity inner ≡ with_hooks identity inner no_hooks
unfolding base_fs
base_fs-with_hooks identity inner = sym (with_hooks-no_hooks identity inner)
