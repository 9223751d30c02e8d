-- ===== src/Mount/Races.antt =====
-- Copy of the table while other goroutines change it.
use vire_fs.Base.{none, List, [], ◌∷◌, All, ◌≡◌, ◌≢◌, refl, ◌∙◌, arith}
use vire_fs.Bytes.{Bytes, equal_iff}
use vire_fs.Dict.{lookup}
use vire_fs.Effect.{Context}
use vire_fs.Fs.{Fs}
use vire_fs.Fs
use vire_fs.Mount.{MountTable, copy_between}
use vire_fs.Mount.Routing.{Routed}
use vire_fs.Mount.Forward.{SameCopy, copy_between-SameCopy}
use vire_fs.Mount.Calls.{
  Call, mounts, unmounts, name_of, after_call, after_calls, lookup-after_call,
}

module _ {W : Type 0} where
  lookup_after_other_call :
      (name : Bytes) (c : Call W) (mt : MountTable W)
      → name_of c ≢ name
      → lookup name (after_call c mt).mounts ≡ lookup name mt.mounts
  lookup_after_other_call name (mounts prefix fs) mt other =
      ground (arith, lookup-after_call name (mounts prefix fs) mt, equal_iff name prefix)
  lookup_after_other_call name (unmounts prefix) mt other =
      ground (arith, lookup-after_call name (unmounts prefix) mt, equal_iff name prefix)

  lookup_after_other_calls :
      (name : Bytes) (calls : List (Call W)) (mt : MountTable W)
      → All (λ c. name_of c ≢ name) calls
      → lookup name (after_calls calls mt).mounts ≡ lookup name mt.mounts
  unfolding after_calls
  lookup_after_other_calls name [] mt _ = refl
  lookup_after_other_calls name (c ∷ calls) mt (other, others) =
      lookup_after_other_calls name calls (after_call c mt) others
      ∙ lookup_after_other_call name c mt other

  -- If other goroutines mount and unmount stores between the two lookups of Copy, but none at the
  -- mount name of the destination, then Copy of the table still does what the package's `Copy`
  -- does between the two stores that the keys were routed to at its start: the same result in the
  -- same world, but where the Get of the source fails, whose error then carries another text.
  pub copy_between-after_calls :
      (mt : MountTable W) (calls : List (Call W)) (ctx : Context W)
      (src_key dst_key src_sub dst_sub : Bytes) (src dst : Fs W) (w : W)
      → ctx w ≡ none
      → Routed mt ctx src_key src src_sub
      → (routed : Routed mt ctx dst_key dst dst_sub) → All (λ c. name_of c ≢ routed.mount) calls
      → SameCopy ctx src src_key src_sub w
          (copy_between mt (after_calls calls mt) ctx src_key dst_key w)
          (Fs.copy ctx src src_sub dst dst_sub [] w)
  copy_between-after_calls mt calls ctx src_key dst_key src_sub dst_sub src dst w alive p q others =
      copy_between-SameCopy mt (after_calls calls mt) ctx src_key dst_key src_sub dst_sub src dst w
        alive p
        (record {
          mount = q.mount;
          below = q.below;
          leads = q.leads;
          mounted = lookup_after_other_calls q.mount calls mt others ∙ q.mounted;
          rest = q.rest;
        })
