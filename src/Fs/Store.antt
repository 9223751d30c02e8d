-- ===== src/Fs/Store.antt =====
-- What a store promises about its contents, for the keys that are valid in it, different ones of
-- which are different files, and for readers that leave the store alone in the sense of `IsCalm`.
use vire_fs.Base.{some, none, List, ◌≡◌, ◌≢◌}
use vire_fs.Bytes.{Bytes}
use vire_fs.Errors.{ok}
use vire_fs.Effect.{Action, Context}
use vire_fs.Fs.{Fs, Reader, ReadCloser, PutOption}
use vire_fs.Fs.Contents.{Contents, Unchanged, UnchangedBut, Opened, Stored}

pub record IsStore {W : Type 0} (IsValid : Bytes → Type 0) (IsCalm : Reader W → Type 0)
    (content : Contents W) (ctx : Context W) (fs : Fs W) : Type 0 where
  pub on_get :
      (key : Bytes) (rc : ReadCloser W) (w v : W)
      → IsValid key
      → fs.get ctx key w ≡ (ok rc, v)
      → Unchanged content w v × Opened content key v rc
  pub on_put :
      (key : Bytes) (r : Reader W) (opts : List PutOption) (w v : W)
      → IsValid key
      → IsCalm r
      → fs.put ctx key r opts w ≡ (ok tt, v)
      → Stored content r key w v
  pub on_delete :
      (key : Bytes) (w : W) → IsValid key → UnchangedBut content key w (fs.delete ctx key w).1
  pub deleted :
      (key : Bytes) (w v : W)
      → IsValid key
      → fs.delete ctx key w ≡ (ok tt, v)
      → content v key ≡ none
  pub on_copy :
      (native : Context W → Bytes → Bytes → Action W (Unit {0})) (src_key dst_key : Bytes) (w v : W)
      → fs.copier ≡ some native
      → IsValid src_key
      → IsValid dst_key
      → src_key ≢ dst_key
      → native ctx src_key dst_key w ≡ (ok tt, v)
      → (content v dst_key ≡ content w src_key)
        × UnchangedBut content dst_key w v
        × (content w src_key ≢ none)

-- The native copy of a store that has one.
pub copier-eq : {A : Type 0} {f g : A} → some f ≡ some g → g ≡ f
copier-eq e = cc
