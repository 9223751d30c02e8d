-- ===== src/Fs/Transfer.antt =====
-- What `Copy` does when the native copy does not apply.
use vire_fs.Base.{none, some, List, [], ◌∷◌, ◌==◌, ==_iff, ◌≡◌, Bool-cases, inl, inr}
use vire_fs.Bytes.{Bytes}
use vire_fs.Errors.{wrap}
use vire_fs.Effect.{Action, Context}
use vire_fs.Fs.{Fs, PutOption, Copier, transfer, native_copier, copy}

module _ {W : Type 0} (ctx : Context W) (src dst : Fs W) (src_key dst_key : Bytes)
    (opts : List PutOption) where
  pub copy-native :
      {native : Context W → Bytes → Bytes → Action W (Unit {0})}
      → native_copier src dst ≡ some native
      → copy ctx src src_key dst dst_key opts ≡ native ctx src_key dst_key
  unfolding copy
  copy-native own = rw (own, copy)

  pub copy-transfer :
      native_copier src dst ≡ none
      → copy ctx src src_key dst dst_key opts
        ≡ transfer ctx src src_key dst dst_key opts (wrap "copy: get %q: %w" (src_key ∷ []))
  unfolding copy
  copy-transfer plain = rw (plain, copy)

-- One store, with a copy of its own.
pub native_copier-eq :
    {W : Type 0} (src dst : Fs W) {native : Copier W}
    → native_copier src dst ≡ some native
    → (src.identity ≡ dst.identity) × (src.copier ≡ some native)
native_copier-eq src dst h = elim (Bool-cases (src.identity == dst.identity)) [
  | inl same ↦ ((==_iff src.identity dst.identity).0 same, rw same at h)
  | inr other ↦ cc (rw other at h)
]
