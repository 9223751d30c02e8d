-- ===== src/Mount/Calls.antt =====
-- The calls of Mount and Unmount that goroutines make on one table, in the order of its lock.
use mathlib.Core.List.{Mem, Perm, Nodup}
use mathlib.Core.List.Perm
use vire_fs.Base.{
  Bool, true, ◌||◌, Option, none, some, List, [], ◌∷◌, map, if◌then◌else◌, ◌≡◌, ◌≢◌, refl, sym, ◌∙◌,
  ap, ◌↔◌, arith,
}
use vire_fs.Bytes.{Bytes, slash, equal, contains, join}
use vire_fs.Dict.{
  lookup, lookup-insert, lookup-erase, keys, mem-keys, keys-Nodup, NodupKeys, insert-NodupKeys,
  erase-NodupKeys,
}
use vire_fs.Errors.{ok}
use vire_fs.Effect.{Context}
use vire_fs.Fs.{Fs, FileInfo, no_info}
use vire_fs.Mount.{
  MountTable, new_mount_table, mount, unmount, mounted_at, resolve, mount_point, list,
}
use vire_fs.Mount.Routing.{LeadsTo, resolve-LeadsTo}

pub data Call (W : Type 0) : Type 0 where
  mounts : Bytes → Fs W → Call W
  unmounts : Bytes → Call W

abbrev pub name_of : {W : Type 0} → Call W → Bytes
name_of (mounts prefix fs) = prefix
name_of (unmounts prefix) = prefix

-- What Mount refuses: an empty name, and one with a slash.
abbrev pub is_refused : Bytes → Bool
is_refused prefix = equal prefix [] || contains prefix (slash ∷ [])

abbrev pub directory : Bytes → FileInfo
directory name = record no_info { key = name; is_dir = true }

module _ {W : Type 0} where
  -- The table after a call. A Mount that fails leaves it as it was.
  abbrev pub after_call : Call W → MountTable W → MountTable W
  after_call (mounts prefix fs) mt = (mount prefix fs mt).1
  after_call (unmounts prefix) mt = unmount prefix mt

  unfoldable pub after_calls : List (Call W) → MountTable W → MountTable W
  after_calls [] mt = mt
  after_calls (c ∷ calls) mt = after_calls calls (after_call c mt)

  -- What a call that succeeds says of a name.
  abbrev pub says : Bytes → Call W → Option (Fs W) → Option (Fs W)
  says name (mounts prefix fs) before =
      if is_refused prefix then before else if equal name prefix then some fs else before
  says name (unmounts prefix) before = if equal name prefix then none else before

  -- What the last call about a name made of it.
  unfoldable pub last_said : Bytes → List (Call W) → Option (Fs W) → Option (Fs W)
  last_said name [] before = before
  last_said name (c ∷ calls) before = last_said name calls (says name c before)

  pub lookup-after_call :
      (name : Bytes) (c : Call W) (mt : MountTable W)
      → lookup name (after_call c mt).mounts ≡ says name c (lookup name mt.mounts)
  unfolding mount unmount
  lookup-after_call name (mounts prefix fs) mt =
      ground (arith, lookup-insert prefix name fs mt.mounts)
  lookup-after_call name (unmounts prefix) mt = lookup-erase prefix name mt.mounts

  lookup-after_calls :
      (name : Bytes) (calls : List (Call W)) (mt : MountTable W)
      → lookup name (after_calls calls mt).mounts ≡ last_said name calls (lookup name mt.mounts)
  unfolding after_calls last_said
  lookup-after_calls name [] mt = refl
  lookup-after_calls name (c ∷ calls) mt =
      lookup-after_calls name calls (after_call c mt)
      ∙ ap (last_said name calls) (lookup-after_call name c mt)

  -- Whatever calls of Mount and Unmount were made on a new table, in whatever order, a key goes to
  -- the store of the last Mount that succeeded of the first name of its clean form, with the other
  -- names as the key, unless an Unmount of that name came later or there was no such Mount: then it
  -- is not found. The context lives.
  pub resolve-after_calls :
      (calls : List (Call W)) (ctx : Context W) (w : W) {full_key name : Bytes} {below : List Bytes}
      → LeadsTo full_key name below
      → ctx w ≡ none
      → resolve (after_calls calls new_mount_table) ctx full_key w
        ≡ (mounted_at (last_said name calls none) name (join below), w)
  unfolding new_mount_table lookup
  resolve-after_calls calls ctx w {name} {below} leads alive =
      resolve-LeadsTo (after_calls calls new_mount_table) ctx leads alive
      ∙ ap (λ o. (mounted_at o name (join below), w))
          (lookup-after_calls name calls new_mount_table)

  after_call-NodupKeys :
      (c : Call W) (mt : MountTable W) → NodupKeys mt.mounts → NodupKeys (after_call c mt).mounts
  unfolding mount unmount
  after_call-NodupKeys (mounts prefix fs) mt h =
      ground (arith, insert-NodupKeys prefix fs mt.mounts h)
  after_call-NodupKeys (unmounts prefix) mt h = erase-NodupKeys prefix mt.mounts h

  after_calls-NodupKeys :
      (calls : List (Call W)) (mt : MountTable W)
      → NodupKeys mt.mounts
      → NodupKeys (after_calls calls mt).mounts
  unfolding after_calls
  after_calls-NodupKeys [] mt h = h
  after_calls-NodupKeys (c ∷ calls) mt h =
      after_calls-NodupKeys calls (after_call c mt) (after_call-NodupKeys c mt h)

  map-mount_point : (m : List (Bytes × Fs W)) → map mount_point m ≡ map directory (keys m)
  map-mount_point [] = refl
  map-mount_point ((name, fs) ∷ m) = ap (λ r. directory name ∷ r) (map-mount_point m)

  keys-eq-map : (m : List (Bytes × Fs W)) → keys m ≡ map (λ p. p.0) m
  keys-eq-map [] = refl
  keys-eq-map ((name, fs) ∷ m) = ap (λ r. name ∷ r) (keys-eq-map m)

  keys-Perm : (l m : List (Bytes × Fs W)) → Perm l m → Perm (keys l) (keys m)
  keys-Perm l m p = rw (keys-eq-map l, keys-eq-map m) (Perm.map (λ q. q.0) p)

  -- Whatever calls of Mount and Unmount were made on a new table, in whatever order, List of the
  -- empty prefix gives a directory for each name, once, of which the last call that succeeded was
  -- a Mount, and nothing else.
  pub list-after_calls :
      (iterate : List (Bytes × Fs W) → List (Bytes × Fs W)) (calls : List (Call W))
      (ctx : Context W) (w : W)
      → ((m : List (Bytes × Fs W)) → Perm (iterate m) m)
      → (names : List Bytes) × (list iterate (after_calls calls new_mount_table) ctx [] w
          ≡ (ok (map directory names), w))
        × Nodup names
        × ((name : Bytes) → Mem name names ↔ (last_said name calls none ≢ none))
  unfolding list equal new_mount_table lookup
  list-after_calls iterate calls ctx w permutes =
      let m = (after_calls calls new_mount_table).mounts in
      let p = keys-Perm (iterate m) m (permutes m) in
      (
        keys (iterate m),
        ap (λ l. (ok l, w)) (map-mount_point (iterate m)),
        Perm.nodup (Perm.symm p) (keys-Nodup m (after_calls-NodupKeys calls new_mount_table tt)),
        λ name.
            let there = mem-keys name m in
            let said = lookup-after_calls name calls new_mount_table in
            (
              (λ i. rw said at (there.0 ((Perm.mem_iff p).0 i))),
              (λ n. (Perm.mem_iff p).1 (there.1 (rw (sym said) at n))),
            ),
      )
