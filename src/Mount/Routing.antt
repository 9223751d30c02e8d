-- ===== src/Mount/Routing.antt =====
-- Where a key goes: the first name picks the store, and the other names are the key in it.
use vire_fs.Base.{
  true, Option, none, some, List, [], ◌∷◌, All, Option-cases, ◌⊎◌, inl, inr, ◌↔◌, ◌≡◌, refl, ap,
  ◌∙◌,
}
use vire_fs.Bytes.{Bytes, equal, equal_ne, join}
use vire_fs.Bytes.Segments.{before_slash-join, after_slash-join, join-ne-nil}
use vire_fs.Dict.{lookup}
use vire_fs.Errors.{
  Error, sentinel, not_found, invalid_key, wrap, errors_is, Result, ok, err, Result-cases,
}
use vire_fs.Effect.{Context}
use vire_fs.GoPath.Laws.{IsName}
use vire_fs.Key.{clean_key}
use vire_fs.Key.Laws.{IsKey, clean_key-IsKey, clean_key-errors_is}
use vire_fs.Fs.{Fs}
use vire_fs.Mount.{MountTable, mounted_at, find_mount, resolve}

-- A key that cleans to a mount name, followed by the names below it.
pub record LeadsTo (full_key mount : Bytes) (below : List Bytes) : Type 0 where
  pub cleaned : clean_key full_key ≡ ok (join (mount ∷ below))
  pub mount_name : IsName mount
  pub names : All IsName below

-- Every key is refused, or stands for the root, or leads to a mount name.
abbrev pub Destination : Bytes → Type 0
Destination full_key =
    ((e : Error) × (clean_key full_key ≡ err e))
    ⊎ ((clean_key full_key ≡ ok [])
        ⊎ ((mount : Bytes) × (below : List Bytes) × LeadsTo full_key mount below))

key-Destination : (full_key k : Bytes) → clean_key full_key ≡ ok k → IsKey k → Destination full_key
key-Destination full_key k e h = by_segments h.segments h.joined h.named
  where
    by_segments : (segs : List Bytes) → k ≡ join segs → All IsName segs → Destination full_key
    by_segments [] j _ = inr (inl (e ∙ ap ok j))
    by_segments (mount ∷ below) j (n, names) =
        inr (inr (mount, below, record { cleaned = e ∙ ap ok j; mount_name = n; names = names }))

pub destination : (full_key : Bytes) → Destination full_key
destination full_key = elim (Result-cases (clean_key full_key)) [
  | inl (k, e) ↦ key-Destination full_key k e (clean_key-IsKey full_key e)
  | inr (d, e) ↦ inl (d, e)
]

module _ {W : Type 0} (mt : MountTable W) (ctx : Context W) where
  find_mount-join :
      (mount : Bytes) (below : List Bytes)
      → IsName mount
      → find_mount mt (join (mount ∷ below))
        ≡ mounted_at (lookup mount mt.mounts) mount (join below)
  find_mount-join mount below n =
      rw (before_slash-join mount below n.no_slash, after_slash-join mount below n.no_slash)

  -- While the context lives, `resolve` looks the first name of the cleaned key up in the table,
  -- and hands on the names below it, joined by slashes.
  pub resolve-LeadsTo :
      {full_key mount : Bytes} {below : List Bytes} {w : W}
      → LeadsTo full_key mount below
      → ctx w ≡ none
      → resolve mt ctx full_key w ≡ (mounted_at (lookup mount mt.mounts) mount (join below), w)
  unfolding resolve
  resolve-LeadsTo {mount} {below} {w} r alive =
      rw
        (
          alive,
          r.cleaned,
          equal_ne (join (mount ∷ below)) [] (join-ne-nil mount below r.mount_name.not_empty),
        )
        (ap (λ x. (x, w)) (find_mount-join mount below r.mount_name))

  pub resolve_of_root :
      (full_key : Bytes) {w : W}
      → clean_key full_key ≡ ok []
      → ctx w ≡ none
      → resolve mt ctx full_key w
        ≡ (err (wrap "%w: empty key after cleaning" [] (sentinel invalid_key)), w)
  unfolding resolve equal
  resolve_of_root full_key root alive = rw (alive, root)

  pub resolve_of_refused :
      (full_key : Bytes) {w : W} {e : Error}
      → clean_key full_key ≡ err e
      → ctx w ≡ none
      → resolve mt ctx full_key w ≡ (err e, w)
  unfolding resolve
  resolve_of_refused full_key refused alive = rw (alive, refused)

  pub resolve_of_dead :
      (full_key : Bytes) {w : W} {e : Error}
      → ctx w ≡ some e
      → resolve mt ctx full_key w ≡ (err e, w)
  unfolding resolve
  resolve_of_dead full_key dead = rw dead

  -- The store and the key that a full key stands for.
  pub record Routed (full_key : Bytes) (fs : Fs W) (sub_key : Bytes) : Type 0 where
    pub mount : Bytes
    pub below : List Bytes
    pub leads : LeadsTo full_key mount below
    pub mounted : lookup mount mt.mounts ≡ some fs
    pub rest : sub_key ≡ join below

  -- Why `resolve` fails in a world.
  abbrev pub Fault : Bytes → W → Error → Type 0
  Fault full_key w e =
      (ctx w ≡ some e)
      ⊎ ((errors_is e invalid_key ≡ true)
          ⊎ ((errors_is e not_found ≡ true)
              × ((mount : Bytes) × (below : List Bytes) × LeadsTo full_key mount below
                  × (lookup mount mt.mounts ≡ none))))

  abbrev Settled : Bytes → W → Result (Fs W × Bytes) × W → Type 0
  Settled full_key w (ok (fs, sub_key), w') = (w' ≡ w) × (ctx w ≡ none) × Routed full_key fs sub_key
  Settled full_key w (err e, w') = (w' ≡ w) × Fault full_key w e

  mounted_at-Settled :
      {full_key mount : Bytes} {below : List Bytes} (w : W) (o : Option (Fs W))
      → LeadsTo full_key mount below
      → ctx w ≡ none
      → lookup mount mt.mounts ≡ o
      → Settled full_key w (mounted_at o mount (join below), w)
  mounted_at-Settled {mount} {below} w (some fs) r alive e =
      (refl, alive, record { mount = mount; below = below; leads = r; mounted = e; rest = refl })
  mounted_at-Settled {mount} {below} w none r alive e =
      (refl, inr (inr (refl, (mount, below, r, e))))

  resolve-Settled : (full_key : Bytes) (w : W) → Settled full_key w (resolve mt ctx full_key w)
  resolve-Settled full_key w = elim (Option-cases (ctx w)) [
    | inr (e, dead) ↦ rw (resolve_of_dead full_key dead) (refl, inl dead)
    | inl alive ↦ elim (destination full_key) [
      | inl (e, refused) ↦
          rw (resolve_of_refused full_key refused alive)
            (refl, inr (inl (clean_key-errors_is full_key refused)))
      | inr (inl root) ↦ rw (resolve_of_root full_key root alive) (refl, inr (inl refl))
      | inr (inr (mount, below, r)) ↦
          rw (resolve-LeadsTo r alive) (mounted_at-Settled w (lookup mount mt.mounts) r alive refl)
    ]
  ]

  -- `resolve` succeeds exactly when the context lives and the first name of the cleaned key is
  -- mounted. It returns the store mounted there and the names below, and changes nothing.
  pub resolve-ok_iff :
      (full_key sub_key : Bytes) (fs : Fs W) (w w' : W)
      → (resolve mt ctx full_key w ≡ (ok (fs, sub_key), w'))
        ↔ ((w' ≡ w) × (ctx w ≡ none) × Routed full_key fs sub_key)
  resolve-ok_iff full_key sub_key fs w w' = (
    λ e. rw e at (resolve-Settled full_key w),
    λ (same, alive, r). resolve-LeadsTo r.leads alive ∙ rw (r.mounted, same, r.rest),
  )
