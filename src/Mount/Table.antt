-- ===== src/Mount/Table.antt =====
-- What Mount and Unmount change.
use vire_fs.Base.{
  true, none, some, List, [], ◌∷◌, if◌then◌else◌, ◌≡◌, ◌≢◌, sym, ◌∙◌, Option-cases, ◌⊎◌, inl, inr,
  arith,
}
use vire_fs.Bytes.{Bytes, equal, equal_ne, has_prefix, join}
use vire_fs.Dict.{lookup, lookup-insert, lookup-erase}
use vire_fs.Errors.{sentinel, not_found, wrap, ok, err}
use vire_fs.Effect.{Context}
use vire_fs.GoPath.{parent_dir, cur_dir}
use vire_fs.Key.Laws.{clean_key-IsKey}
use vire_fs.Key.Traversal.{has_prefix-join}
use vire_fs.Fs.{Fs}
use vire_fs.Mount.{MountTable, mount, unmount, resolve}
use vire_fs.Mount.Routing.{
  LeadsTo, resolve-LeadsTo, destination, resolve_of_root, resolve_of_refused, resolve_of_dead,
}

module _ {W : Type 0} (prefix : Bytes) (fs : Fs W) (mt : MountTable W) where
  lookup-mount :
      {mt' : MountTable W}
      → mount prefix fs mt ≡ (ok tt, mt')
      → (j : Bytes) → lookup j mt'.mounts ≡ (if equal j prefix then some fs else lookup j mt.mounts)
  unfolding mount
  lookup-mount h j = ground (arith, lookup-insert prefix j fs mt.mounts)

  -- After a successful Mount, the keys below the new name go to the new store, and all others
  -- where they went before.
  resolve-mount :
      (ctx : Context W) (w : W) {mt' : MountTable W} {full_key name : Bytes} {below : List Bytes}
      → mount prefix fs mt ≡ (ok tt, mt')
      → LeadsTo full_key name below
      → ctx w ≡ none
      → resolve mt' ctx full_key w
        ≡ (if equal name prefix then (ok (fs, join below), w) else resolve mt ctx full_key w)
  resolve-mount ctx w {mt'} {full_key} {name} {below} h r alive =
      rw (resolve-LeadsTo mt' ctx r alive, resolve-LeadsTo mt ctx r alive, lookup-mount h name)
        (ground arith)

  -- After Unmount no key below the name is found, and all others go where they went before.
  resolve-unmount :
      (ctx : Context W) (w : W) {full_key name : Bytes} {below : List Bytes}
      → LeadsTo full_key name below
      → ctx w ≡ none
      → resolve (unmount prefix mt) ctx full_key w ≡ (
          if equal name prefix
          then (err (wrap "%w: no filesystem mounted at %q" (name ∷ []) (sentinel not_found)), w)
          else resolve mt ctx full_key w)
  unfolding unmount
  resolve-unmount ctx w {full_key} {name} {below} r alive =
      rw
        (
          resolve-LeadsTo (unmount prefix mt) ctx r alive,
          resolve-LeadsTo mt ctx r alive,
          unmount,
          lookup-erase prefix name mt.mounts,
        )
        (ground arith)

  IsName-ne-prefix :
      {full_key name : Bytes} {below : List Bytes}
      → LeadsTo full_key name below
      → (has_prefix prefix parent_dir ≡ true) ⊎ (prefix ≡ cur_dir)
      → name ≢ prefix
  IsName-ne-prefix r (inr h) same = r.mount_name.not_cur (same ∙ h)
  IsName-ne-prefix {full_key} {name} {below} r (inl h) same =
      let k = clean_key-IsKey full_key r.cleaned in
      cc (sym (has_prefix-join name below (r.mount_name, r.names)), k.inside, h, same)

  -- A store mounted at `.`, or at a name that begins with `..`, is never reached: every key is
  -- resolved as it was before.
  pub resolve-mount_unreachable :
      (ctx : Context W) (w : W) (full_key : Bytes) {mt' : MountTable W}
      → (has_prefix prefix parent_dir ≡ true) ⊎ (prefix ≡ cur_dir)
      → mount prefix fs mt ≡ (ok tt, mt')
      → resolve mt' ctx full_key w ≡ resolve mt ctx full_key w
  resolve-mount_unreachable ctx w full_key {mt'} bad h = elim (Option-cases (ctx w)) [
    | inr (e, dead) ↦
        resolve_of_dead mt' ctx full_key dead ∙ sym (resolve_of_dead mt ctx full_key dead)
    | inl alive ↦ elim (destination full_key) [
      | inl (e, refused) ↦
          resolve_of_refused mt' ctx full_key refused alive
          ∙ sym (resolve_of_refused mt ctx full_key refused alive)
      | inr (inl root) ↦
          resolve_of_root mt' ctx full_key root alive
          ∙ sym (resolve_of_root mt ctx full_key root alive)
      | inr (inr (name, below, r)) ↦
          resolve-mount ctx w h r alive ∙ rw (equal_ne name prefix (IsName-ne-prefix r bad))
    ]
  ]
