-- ===== src/Mount/Parts.antt =====
-- The stores of a mount table as parts of one store, whose keys begin with the mount names.
use vire_fs.Base.{none, some, List, ◌∷◌, ◌++◌, ◌≡◌, ◌≢◌, refl, ap, ◌∙◌}
use vire_fs.Bytes.{Bytes, slash, before_slash, after_slash, join}
use vire_fs.Bytes.Segments.{before_slash-join, after_slash-join}
use vire_fs.Dict.{lookup}
use vire_fs.Errors.{ok}
use vire_fs.Effect.{Action, Context}
use vire_fs.Fs.{Fs, Reader, ReadCloser, PutOption}
use vire_fs.Fs.Contents.{Contents, Unchanged, UnchangedBut, Opened, Keeps}
use vire_fs.Mount.{MountTable}
use vire_fs.Mount.Routing.{LeadsTo, Routed}

-- The contents of all mounted stores, by the mount name and the rest of the key.
abbrev pub whole : {W : Type 0} → (Bytes → Contents W) → Contents W
whole content w key = content (before_slash key) w (after_slash key)

-- A key in normal form of a file in a mounted store.
pub record IsRoute {W : Type 0} (IsValid : Bytes → Bytes → Type 0) (mt : MountTable W) (key : Bytes)
    : Type 0 where
  pub name : Bytes
  pub first : Bytes
  pub rest : List Bytes
  pub store : Fs W
  pub leads : LeadsTo key name (first ∷ rest)
  pub normal : key ≡ name ++ slash ∷ join (first ∷ rest)
  pub mounted : lookup name mt.mounts ≡ some store
  pub valid : IsValid name (join (first ∷ rest))

-- What a Put under the name stored. The bytes were taken in a world where other keys were as
-- before.
pub record Wrote {W : Type 0} (content : Bytes → Contents W) (r : Reader W) (name key : Bytes)
    (w v : W) : Type 0 where
  pub at : W
  pub bytes : Bytes
  pub given : (r at).0 ≡ (bytes, none)
  pub calm : UnchangedBut (whole content) (name ++ slash ∷ key) w at
  pub holds : content name v key ≡ some bytes
  pub others : UnchangedBut (whole content) (name ++ slash ∷ key) w v

-- What the table relies on: each mounted store keeps its promises for its valid keys, no two names
-- have one store, and no operation under one name changes the contents under another.
pub record Mounted {W : Type 0} (IsValid : Bytes → Bytes → Type 0) (content : Bytes → Contents W)
    (ctx : Context W) (mt : MountTable W) : Type 0 where
  pub on_get :
      (name : Bytes) (fs : Fs W) (key : Bytes) (rc : ReadCloser W) (w v : W)
      → lookup name mt.mounts ≡ some fs
      → IsValid name key
      → fs.get ctx key w ≡ (ok rc, v)
      → Unchanged (whole content) w v
        × Opened (content name) key v rc
        × Keeps (whole content) rc.read
        × ((u : W) → Unchanged (whole content) u (rc.close u))
  pub on_put :
      (name : Bytes) (fs : Fs W) (key : Bytes) (r : Reader W) (opts : List PutOption) (w v : W)
      → lookup name mt.mounts ≡ some fs
      → IsValid name key
      → Keeps (whole content) r
      → fs.put ctx key r opts w ≡ (ok tt, v)
      → Wrote content r name key w v
  pub on_delete :
      (name : Bytes) (fs : Fs W) (key : Bytes) (w : W)
      → lookup name mt.mounts ≡ some fs
      → IsValid name key
      → UnchangedBut (whole content) (name ++ slash ∷ key) w (fs.delete ctx key w).1
  pub deleted :
      (name : Bytes) (fs : Fs W) (key : Bytes) (w v : W)
      → lookup name mt.mounts ≡ some fs
      → IsValid name key
      → fs.delete ctx key w ≡ (ok tt, v)
      → content name v key ≡ none
  pub on_copy :
      (name : Bytes) (fs : Fs W) (native : Context W → Bytes → Bytes → Action W (Unit {0}))
      (src_key dst_key : Bytes) (w v : W)
      → lookup name mt.mounts ≡ some fs
      → fs.copier ≡ some native
      → IsValid name src_key
      → IsValid name dst_key
      → src_key ≢ dst_key
      → native ctx src_key dst_key w ≡ (ok tt, v)
      → (content name v dst_key ≡ content name w src_key)
        × UnchangedBut (whole content) (name ++ slash ∷ dst_key) w v
        × (content name w src_key ≢ none)
  pub one_name :
      (name other : Bytes) (fs fs' : Fs W)
      → lookup name mt.mounts ≡ some fs
      → lookup other mt.mounts ≡ some fs'
      → fs.identity ≡ fs'.identity
      → name ≡ other

module _ {W : Type 0} {IsValid : Bytes → Bytes → Type 0} {mt : MountTable W} {key : Bytes} where
  -- The key in the mounted store.
  abbrev pub sub_key : IsRoute IsValid mt key → Bytes
  sub_key r = join (r.first ∷ r.rest)

  pub IsRoute-Routed :
      (ctx : Context W) (r : IsRoute IsValid mt key) → Routed mt ctx key r.store (sub_key r)
  IsRoute-Routed ctx r = record {
    mount = r.name;
    below = r.first ∷ r.rest;
    leads = r.leads;
    mounted = r.mounted;
    rest = refl;
  }

  -- What the whole has at the key, the mounted store has at the rest of the key.
  pub whole-sub_key :
      (content : Bytes → Contents W) (w : W) (r : IsRoute IsValid mt key)
      → whole content w key ≡ content r.name w (sub_key r)
  whole-sub_key content w r =
      ap (whole content w) r.normal
      ∙ ap (λ n. content n w (after_slash (r.name ++ slash ∷ sub_key r)))
          (before_slash-join r.name (r.first ∷ r.rest) r.leads.mount_name.no_slash)
      ∙ ap (content r.name w)
          (after_slash-join r.name (r.first ∷ r.rest) r.leads.mount_name.no_slash)
