-- ===== src/Mount/Forward.antt =====
-- The operations of the table are those of the mounted stores.
use vire_fs.Base.{ℕ, none, List, [], ◌∷◌, ◌≡◌, ◌≢◌, refl, sym, Option-cases, inl, inr}
use vire_fs.Bytes.{Bytes, equal_ne}
use vire_fs.Bytes.Segments.{join-ne-nil}
use vire_fs.Errors.{Error, wrap, Result, ok, err, ok-injective}
use vire_fs.Effect.{Context}
use vire_fs.Key.{clean_key}
use vire_fs.Fs.{Fs, Reader, ReadCloser, PutOption, FileInfo, native_copier, transfer}
use vire_fs.Fs
use vire_fs.Fs.Transfer.{copy-transfer, copy-native}
use vire_fs.Mount.{
  MountTable, resolve, get, put, delete, list, stat, exists, access, copy_between, as_fs,
  copy_resolved,
}
use vire_fs.Mount.Routing.{Routed, resolve-ok_iff}

module _ {W : Type 0} (mt : MountTable W) (ctx : Context W) (w : W) where
  pub resolve_of_Routed :
      {full_key sub_key : Bytes} {fs : Fs W}
      → ctx w ≡ none
      → Routed mt ctx full_key fs sub_key
      → resolve mt ctx full_key w ≡ (ok (fs, sub_key), w)
  resolve_of_Routed {full_key} {sub_key} {fs} alive r =
      (resolve-ok_iff mt ctx full_key sub_key fs w w).1 (refl, alive, r)

  full_key-ne-nil :
      {full_key sub_key : Bytes} {fs : Fs W} → Routed mt ctx full_key fs sub_key → full_key ≢ []
  unfolding clean_key
  full_key-ne-nil r empty =
      join-ne-nil r.mount r.below r.leads.mount_name.not_empty
        (sym (ok-injective (rw empty at r.leads.cleaned)))

  -- While the context lives, each operation of the table on a key that is routed to a store is
  -- that operation of the store, on the rest of the key.
  pub as_fs-Routed :
      (identity : ℕ) (iterate : List (Bytes × Fs W) → List (Bytes × Fs W))
      (full_key sub_key : Bytes) (fs : Fs W) (r : Reader W) (opts : List PutOption)
      → ctx w ≡ none
      → Routed mt ctx full_key fs sub_key
      → let m = as_fs identity iterate mt in
        (m.get ctx full_key w ≡ fs.get ctx sub_key w)
        × (m.put ctx full_key r opts w ≡ fs.put ctx sub_key r opts w)
        × (m.delete ctx full_key w ≡ fs.delete ctx sub_key w)
        × (m.list ctx full_key w ≡ fs.list ctx sub_key w)
        × (m.stat ctx full_key w ≡ fs.stat ctx sub_key w)
        × (m.exists ctx full_key w ≡ fs.exists ctx sub_key w)
        × (m.access ctx full_key w ≡ fs.access ctx sub_key w)
  unfolding as_fs get put delete list stat exists access
  as_fs-Routed identity iterate full_key sub_key fs r opts alive routed =
      let found = resolve_of_Routed alive routed in
      (
        rw found,
        rw found,
        rw found,
        rw (equal_ne full_key [] (full_key-ne-nil routed), found),
        rw found,
        rw found,
        rw found,
      )

-- Two outcomes of a copy: the same, or, where the Get of the source fails, its error in the same
-- world, wrapped with the key that the caller gave in one and with the key in the store in the other.
pub data SameCopy {W : Type 0} (ctx : Context W) (src : Fs W) (src_key src_sub : Bytes) (w : W)
    : Result (Unit {0}) × W → Result (Unit {0}) × W → Type 0 where
  same : {p : Result (Unit {0}) × W} → SameCopy ctx src src_key src_sub w p p
  get_fails :
      {e : Error} {v : W}
      → src.get ctx src_sub w ≡ (err e, v)
      → SameCopy ctx src src_key src_sub w
          (err (wrap "mount copy: get %q: %w" (src_key ∷ []) e), v)
          (err (wrap "copy: get %q: %w" (src_sub ∷ []) e), v)

transfer-SameCopy :
    {W : Type 0} (ctx : Context W) (src dst : Fs W) (src_key src_sub dst_sub : Bytes) (w : W)
    → SameCopy ctx src src_key src_sub w
        (transfer ctx src src_sub dst dst_sub [] (wrap "mount copy: get %q: %w" (src_key ∷ [])) w)
        (transfer ctx src src_sub dst dst_sub [] (wrap "copy: get %q: %w" (src_sub ∷ [])) w)
transfer-SameCopy {W} ctx src dst src_key src_sub dst_sub w = by_get (src.get ctx src_sub w) refl
  where
    by_get :
        (r : Result (ReadCloser W) × W)
        → src.get ctx src_sub w ≡ r
        → SameCopy ctx src src_key src_sub w
            (transfer ctx src src_sub dst dst_sub []
              (wrap "mount copy: get %q: %w" (src_key ∷ []))
              w)
            (transfer ctx src src_sub dst dst_sub [] (wrap "copy: get %q: %w" (src_sub ∷ [])) w)
    by_get (ok rc, v) e = rw e same
    by_get (err d, v) e = rw e (get_fails e)

-- Copy of the table, between keys that are routed when they are looked up, does what the package's
-- `Copy` does between the two stores, but for the text around an error of Get.
pub copy_between-SameCopy :
    {W : Type 0} (mt mt' : MountTable W) (ctx : Context W) (src_key dst_key src_sub dst_sub : Bytes)
    (src dst : Fs W) (w : W)
    → ctx w ≡ none
    → Routed mt ctx src_key src src_sub
    → Routed mt' ctx dst_key dst dst_sub
    → SameCopy ctx src src_key src_sub w
        (copy_between mt mt' ctx src_key dst_key w)
        (Fs.copy ctx src src_sub dst dst_sub [] w)
unfolding copy_between
copy_between-SameCopy mt mt' ctx src_key dst_key src_sub dst_sub src dst w alive p q =
    rw (resolve_of_Routed mt ctx w alive p, resolve_of_Routed mt' ctx w alive q)
      (elim (Option-cases (native_copier src dst)) [
        | inl plain ↦
            rw (plain, copy_resolved, copy-transfer ctx src dst src_sub dst_sub [] plain)
              (transfer-SameCopy ctx src dst src_key src_sub dst_sub w)
        | inr (native, own) ↦
            rw (own, copy_resolved, copy-native ctx src dst src_sub dst_sub [] own) same
      ])
