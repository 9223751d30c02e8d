-- ===== src/Tests/HookTests.antt =====
-- Stores in hooks.
use vire_fs.Base.{Option, none, some, [], ◌∷◌, ◌++◌, ◌≡◌, refl, sym, ap, ◌∙◌, drop}
use vire_fs.Bytes.{Bytes, codes, equal, equal_refl}
use vire_fs.Dict.{lookup, insert, erase, lookup-erase}
use vire_fs.Errors.{Error, sentinel, not_found, ok, err}
use vire_fs.Fs.{Fs, Reader, ReadCloser}
use vire_fs.Fs.Contents.{Keeps}
use vire_fs.Fs.Store.{IsStore}
use vire_fs.Hook.{Hooks, with_hooks}
use vire_fs.Hook.Codec.{IsCodec, get-put_in_hooks}
use vire_fs.Tests.Promises.{held, store-Stored, disk-get, disk-deleted, disk-kept}
use vire_fs.Tests.Memory.{World, live, memory}

abbrev disk : Fs World
disk = memory 1 []

-- Deletions are written to a log in the same world.
abbrev logging : Hooks World
logging = record {
  wrap_get = none;
  wrap_put = some (λ key r w. ((λ v. ((codes "x" ++ (r v).0.0, none), v)), w));
  after_stat = some (λ key info w. (record info { content_type = codes "t" }, w));
  on_delete = some (λ key w. insert (codes "log") key w);
}

no_get : disk.get live (codes "z") [] ≡ (err (sentinel not_found), [])
unfolding lookup
no_get = refl

no_delete : disk.delete live (codes "z") [] ≡ (err (sentinel not_found), [])
unfolding lookup
no_delete = refl

no_stat : disk.stat live (codes "z") [] ≡ (err (sentinel not_found), [])
unfolding lookup
no_stat = refl

logged :
    (with_hooks 5 disk logging).delete live (codes "a") ((codes "a", codes "1") ∷ [])
    ≡ (ok tt, (codes "log", codes "a") ∷ [])
unfolding with_hooks lookup erase insert equal
logged = refl

-- A byte in front of all that is stored.
abbrev mark : Bytes → Bytes → Bytes
mark key b = 1 ∷ b

abbrev unmark : Bytes → Bytes → Bytes
unmark key b = drop 1 b

abbrev marked : (Bytes → Bytes) → (Bytes × Option Error) × World → (Bytes × Option Error) × World
marked f ((b, e), w) = ((f b, e), w)

abbrev marking : Hooks World
marking = record {
  wrap_get =
      some
        (λ key rc w. (record { read = λ v. marked (unmark key) (rc.read v); close = rc.close }, w));
  wrap_put = some (λ key r w. ((λ v. marked (mark key) (r v)), w));
  after_stat = none;
  on_delete = none;
}

marked-eq :
    (f : Bytes → Bytes) (x : (Bytes × Option Error) × World) (c : Bytes)
    → (marked f x).0 ≡ (c, none)
    → (b : Bytes) × (x.0 ≡ (b, none)) × (c ≡ f b)
marked-eq f ((b, none), w) c e = (b, refl, sym (ap (λ y. y.0) e))
marked-eq f ((b, some d), w) c e = cc

marked-calm : (f : Bytes → Bytes) (x : (Bytes × Option Error) × World) → (marked f x).1 ≡ x.1
marked-calm f ((b, e), w) = refl

marking-IsCodec : IsCodec (Keeps held) held mark unmark marking
marking-IsCodec = record {
  put_reader = λ key r w still v q. ap (lookup q) (marked-calm (mark key) (r v)) ∙ still v q;
  encodes =
      λ key c r w u e. let (b, given, same) = marked-eq (mark key) (r u) c e in (u, b, given, same);
  get_calm = λ key rc w q. refl;
  decodes = λ key b rc w u e.
      let (c, read, same) = marked-eq (unmark key) (rc.read u) b e in
      (u, c, (λ q. refl), read, same);
}

disk-IsStore : IsStore (λ _. Unit {0}) (Keeps held) held live disk
disk-IsStore = record {
  on_get = λ key rc w v _ h. disk-get key (lookup key w) rc w v refl h;
  on_put = λ key r opts w v _ still h. store-Stored key r w v (r w) still refl h;
  on_delete = λ key w _. disk-kept key (lookup key w) w;
  deleted = λ key w v _ h.
      ap (lookup key) (sym (disk-deleted key (lookup key w) w v h))
      ∙ rw (lookup-erase key key w, equal_refl key) refl;
  on_copy = λ native src_key dst_key w v has. cc;
}

abbrev given : Reader World
given v = ((codes "ab", none), v)

abbrev kept : World
kept = (codes "k", mark [] (codes "ab")) ∷ []

abbrev reads_back : ReadCloser World
reads_back = record {
  read = λ v. marked (unmark (codes "k")) ((1 ∷ codes "ab", none), v);
  close = λ v. v;
}

put_marked : (with_hooks 5 disk marking).put live (codes "k") given [] [] ≡ (ok tt, kept)
unfolding with_hooks insert
put_marked = refl

got_marked : (with_hooks 5 disk marking).get live (codes "k") kept ≡ (ok reads_back, kept)
unfolding with_hooks lookup equal
got_marked = refl

get-put_in_hooks_example : (at : World) × ((given at).0 ≡ (codes "ab", none))
get-put_in_hooks_example =
    get-put_in_hooks disk-IsStore marking-IsCodec (codes "k") tt 5 given [] reads_back (codes "ab")
      [] kept kept kept (λ b. refl) (λ v q. refl) put_marked refl got_marked refl
