-- ===== src/Hook.antt =====
-- hook.go: a store wrapped in hooks, chains of middleware, and `BaseFS`.
pub mod Laws
pub mod Compose
pub mod Codec
use mathlib.Core.List.{foldl}
use vire_fs.Base.{ℕ, Bool, Option, none, some, List, []}
use vire_fs.Bytes.{Bytes}
use vire_fs.Errors.{Result, ok}
use vire_fs.Effect.{Action, Context, ◌>>=◌, ◌>>◌}
use vire_fs.Fs.{Fs, FileInfo, Reader, ReadCloser, PutOption, AccessInfo}

-- A hook may have effects of its own; `none` is a nil field.
pub record Hooks (W : Type 0) : Type 0 where
  pub wrap_get : Option (Bytes → ReadCloser W → W → ReadCloser W × W)
  pub wrap_put : Option (Bytes → Reader W → W → Reader W × W)
  pub after_stat : Option (Bytes → FileInfo → W → FileInfo × W)
  pub on_delete : Option (Bytes → W → W)

-- A hook that is given a value and gives one back, if it is set.
abbrev pub apply_hook : {W A : Type 0} → Option (Bytes → A → W → A × W) → Bytes → A → W → A × W
apply_hook none key a w = (a, w)
apply_hook (some f) key a w = f key a w

abbrev pub apply_on_delete : {W : Type 0} → Option (Bytes → W → W) → Bytes → W → W
apply_on_delete none key w = w
apply_on_delete (some f) key w = f key w

abbrev pub succeed : {W A : Type 0} → A × W → Result A × W
succeed (a, w) = (ok a, w)

pub record HookFs (W : Type 0) : Type 0 where
  pub inner : Fs W
  pub hooks : Hooks W

module _ {W : Type 0} (h : HookFs W) where
  -- The store inside, without the hooks.
  unfoldable pub unwrap : Fs W
  unwrap = h.inner

  get : Context W → Bytes → Action W (ReadCloser W)
  get ctx key = do rc ← h.inner.get ctx key; λ w. succeed (apply_hook h.hooks.wrap_get key rc w)

  put : Context W → Bytes → Reader W → List PutOption → Action W (Unit {0})
  put ctx key r opts w =
      let (r', w') = apply_hook h.hooks.wrap_put key r w in h.inner.put ctx key r' opts w'

  delete : Context W → Bytes → Action W (Unit {0})
  delete ctx key = do h.inner.delete ctx key; λ w. (ok tt, apply_on_delete h.hooks.on_delete key w)

  list : Context W → Bytes → Action W (List FileInfo)
  list ctx prefix = h.inner.list ctx prefix

  stat : Context W → Bytes → Action W FileInfo
  stat ctx key = do
    info ← h.inner.stat ctx key
    λ w. succeed (apply_hook h.hooks.after_stat key info w)

  exists : Context W → Bytes → Action W Bool
  exists ctx key = h.inner.exists ctx key

  access : Context W → Bytes → Action W AccessInfo
  access ctx key = h.inner.access ctx key

  -- It implements none of the optional interfaces.
  unfoldable pub as_fs : ℕ → Fs W
  unfolding get put delete list stat exists access
  as_fs identity = record {
    identity = identity;
    get = get;
    put = put;
    delete = delete;
    list = list;
    stat = stat;
    access = access;
    exists = exists;
    copier = none;
    batch_deleter = none;
  }

-- `WithHooks`, at a new address.
unfoldable pub with_hooks : {W : Type 0} → ℕ → Fs W → Hooks W → Fs W
unfolding as_fs
with_hooks identity inner hooks = as_fs (record { inner = inner; hooks = hooks }) identity

abbrev pub Middleware : Type 0 → Type 0
Middleware W = Fs W → Fs W

unfoldable pub chain : {W : Type 0} → Fs W → List (Middleware W) → Fs W
chain fs mw = foldl (λ inner m. m inner) fs mw

-- `BaseFS` around a store: every method is forwarded. The struct is not the store inside it.
unfoldable pub base_fs : {W : Type 0} → ℕ → Fs W → Fs W
base_fs identity inner = record {
  identity = identity;
  get = λ ctx key. inner.get ctx key;
  put = λ ctx key r opts. inner.put ctx key r opts;
  delete = λ ctx key. inner.delete ctx key;
  list = λ ctx prefix. inner.list ctx prefix;
  stat = λ ctx key. inner.stat ctx key;
  access = λ ctx key. inner.access ctx key;
  exists = λ ctx key. inner.exists ctx key;
  copier = none;
  batch_deleter = none;
}
