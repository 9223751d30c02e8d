-- ===== src/Hook/Compose.antt =====
-- Hooks around hooks are one set of hooks.
use mathlib.Core.List.{foldl}
use vire_fs.Base.{ℕ, Option, none, some, List, [], ◌∷◌, ◌++◌, map, ◌≡◌, refl, sym, ◌∙◌, ap}
use vire_fs.Bytes.{Bytes}
use vire_fs.Errors.{Result, ok, err}
use vire_fs.Effect.{then_run}
use vire_fs.Fs.{Fs}
use vire_fs.Hook.{Hooks, apply_hook, apply_on_delete, succeed, with_hooks, Middleware, chain}

abbrev pub Hook : Type 0 → Type 0 → Type 0
Hook W A = Bytes → A → W → A × W

-- One hook after another on the same value.
abbrev pub then_hook : {W A : Type 0} → Option (Hook W A) → Option (Hook W A) → Option (Hook W A)
then_hook none g = g
then_hook (some f) none = some f
then_hook (some f) (some g) = some (λ key a w. let (b, v) = f key a w in g key b v)

abbrev pub then_on_delete :
    {W : Type 0} → Option (Bytes → W → W) → Option (Bytes → W → W) → Option (Bytes → W → W)
then_on_delete none g = g
then_on_delete (some f) none = some f
then_on_delete (some f) (some g) = some (λ key w. g key (f key w))

-- What comes out of the store passes the inner hooks first; what goes in, the outer ones.
abbrev pub compose : {W : Type 0} → Hooks W → Hooks W → Hooks W
compose inner outer = record {
  wrap_get = then_hook inner.wrap_get outer.wrap_get;
  wrap_put = then_hook outer.wrap_put inner.wrap_put;
  after_stat = then_hook inner.after_stat outer.after_stat;
  on_delete = then_on_delete inner.on_delete outer.on_delete;
}

apply_hook-then_hook :
    {W A : Type 0} (f g : Option (Hook W A)) (key : Bytes) (a : A) (w : W)
    → apply_hook (then_hook f g) key a w
      ≡ (let (b, v) = apply_hook f key a w in apply_hook g key b v)
apply_hook-then_hook none g key a w = refl
apply_hook-then_hook (some f) none key a w = refl
apply_hook-then_hook (some f) (some g) key a w = refl

apply_on_delete-then_on_delete :
    {W : Type 0} (f g : Option (Bytes → W → W)) (key : Bytes) (w : W)
    → apply_on_delete (then_on_delete f g) key w ≡ apply_on_delete g key (apply_on_delete f key w)
apply_on_delete-then_on_delete none g key w = refl
apply_on_delete-then_on_delete (some f) none key w = refl
apply_on_delete-then_on_delete (some f) (some g) key w = refl

run_hooks :
    {W A : Type 0} (f g : Option (Hook W A)) (key : Bytes) (r : Result A × W)
    → then_run
        (then_run r (λ a w. succeed (apply_hook f key a w)))
        (λ a w. succeed (apply_hook g key a w))
      ≡ then_run r (λ a w. succeed (apply_hook (then_hook f g) key a w))
run_hooks f g key (ok a, w) = rw apply_hook-then_hook
run_hooks f g key (err e, w) = refl

run_on_delete :
    {W : Type 0} (f g : Option (Bytes → W → W)) (key : Bytes) (r : Result (Unit {0}) × W)
    → then_run
        (then_run r (λ _ w. (ok tt, apply_on_delete f key w)))
        (λ _ w. (ok tt, apply_on_delete g key w))
      ≡ then_run r (λ _ w. (ok tt, apply_on_delete (then_on_delete f g) key w))
run_on_delete f g key (ok a, w) = rw apply_on_delete-then_on_delete
run_on_delete f g key (err e, w) = refl

pub with_hooks-with_hooks :
    {W : Type 0} (i j : ℕ) (fs : Fs W) (inner outer : Hooks W)
    → with_hooks j (with_hooks i fs inner) outer ≡ with_hooks j fs (compose inner outer)
unfolding with_hooks
with_hooks-with_hooks i j fs inner outer = λ t. record {
  identity = j;
  get = λ ctx key w. run_hooks inner.wrap_get outer.wrap_get key (fs.get ctx key w) t;
  put = λ ctx key r opts w.
      let wrapped = sym (apply_hook-then_hook outer.wrap_put inner.wrap_put key r w) in
      fs.put ctx key (wrapped t).0 opts (wrapped t).1;
  delete = λ ctx key w. run_on_delete inner.on_delete outer.on_delete key (fs.delete ctx key w) t;
  list = fs.list;
  stat = λ ctx key w. run_hooks inner.after_stat outer.after_stat key (fs.stat ctx key w) t;
  access = fs.access;
  exists = fs.exists;
  copier = none;
  batch_deleter = none;
}

-- Hooks as a middleware, at an address of its own.
abbrev pub hook_layer : {W : Type 0} → ℕ × Hooks W → Middleware W
hook_layer (identity, hooks) fs = with_hooks identity fs hooks

-- The address of the last layer.
abbrev pub outermost : {W : Type 0} → ℕ → List (ℕ × Hooks W) → ℕ
outermost i [] = i
outermost i ((j, hooks) ∷ layers) = outermost j layers

abbrev pub compose_all : {W : Type 0} → Hooks W → List (ℕ × Hooks W) → Hooks W
compose_all inner [] = inner
compose_all inner ((j, hooks) ∷ layers) = compose_all (compose inner hooks) layers

-- A chain of hook layers is one layer, whose hooks are composed in the order of the chain.
chain-hook_layer :
    {W : Type 0} (fs : Fs W) (i : ℕ) (hooks : Hooks W) (layers : List (ℕ × Hooks W))
    → chain fs (map hook_layer ((i, hooks) ∷ layers))
      ≡ with_hooks (outermost i layers) fs (compose_all hooks layers)
unfolding chain
chain-hook_layer fs i hooks [] = refl
chain-hook_layer fs i hooks ((j, outer) ∷ layers) =
    ap (λ inner. foldl (λ b m. m b) inner (map hook_layer layers))
      (with_hooks-with_hooks i j fs hooks outer)
    ∙ chain-hook_layer fs j (compose hooks outer) layers

-- A chain can be built in two steps.
chain-append :
    {W : Type 0} (fs : Fs W) (inner outer : List (Middleware W))
    → chain fs (inner ++ outer) ≡ chain (chain fs inner) outer
unfolding chain
chain-append fs [] outer = refl
chain-append fs (m ∷ inner) outer = chain-append (m fs) inner outer
