-- ===== src/Tests/ObjectTests.antt =====
-- Object stores.
use vire_fs.Base.{drop, false, none, List, [], ◌∷◌, ◌++◌, ◌≡◌, ◌↔◌, refl}
use vire_fs.Base.Int.{pos}
use vire_fs.Bytes.{codes, slash, has_prefix, equal}
use vire_fs.GoPath.{clean}
use vire_fs.Dict.{lookup, erase}
use vire_fs.Errors.{ok, foreign}
use vire_fs.Fs.{FileInfo, no_info}
use vire_fs.Key.{clean_key}
use vire_fs.Object.{s3_key, map_s3_error}
use vire_fs.Object.Objects.{exists}
use vire_fs.Object.Listing.{list, complete, relative, trim_slash, s3_prefix}
use vire_fs.Object.Bulk.{batch_delete, identifiers, delete_batch, delete_batches}
use vire_fs.Object.Links.{access}
use vire_fs.Object.Entries.{slashed}
use vire_fs.Object.Pages.{Listed, list-ok_iff}
use vire_fs.Object.Batches.{AllRequested, no_keys, one_more, batch_delete-AllRequested}
use vire_fs.Object.Progress.{batch_delete-succeeds}
use vire_fs.Object.Access.{Answers, access-Answers}
use vire_fs.Object.Interface.{as_fs}
use vire_fs.Object.Store.{Bucket, object_key, IsPlainKey, object-IsStore}
use vire_fs.Fs.Contents.{Keeps}
use vire_fs.Fs.Keyed.{keyed}
use vire_fs.Fs.Store.{IsStore}
use vire_fs.Key.Laws.{clean_key-IsKey}
use vire_fs.Tests.Promises.{held, client-Bucket}
use vire_fs.Tests.Memory.{World, live, dir_at}
use vire_fs.Tests.Bucket.{sdk, bucket, unslashed}

clean_a : clean_key (codes "/a") ≡ ok (codes "a")
unfolding clean_key clean equal
clean_a = refl

clean_b : clean_key (codes "b") ≡ ok (codes "b")
unfolding clean_key clean equal
clean_b = refl

clean_root : clean_key [] ≡ ok []
unfolding clean_key equal
clean_root = refl

clean_below : clean_key (codes "d/x") ≡ ok (codes "d" ++ slash ∷ codes "x")
unfolding clean_key clean equal
clean_below = refl

key_a : s3_key bucket (codes "/a") ≡ ok (codes "u/a")
unfolding s3_key clean_key clean equal
key_a = refl

key_b : s3_key bucket (codes "b") ≡ ok (codes "u/b")
unfolding s3_key clean_key clean equal
key_b = refl

key_below : s3_key bucket (codes "d/x") ≡ ok (codes "u/d/x")
unfolding s3_key clean_key clean equal
key_below = refl

absent : exists sdk bucket live (codes "/a") [] ≡ (ok false, [])
unfolding exists s3_key clean_key clean equal lookup map_s3_error
absent = refl

abbrev entries : List FileInfo
entries =
    record no_info { key = codes "a"; size = pos 1 }
    ∷ record no_info { key = codes "b"; size = pos 1 }
    ∷ dir_at (codes "d")
    ∷ []

two_pages : list sdk bucket 2 live [] [] ≡ (ok (complete entries), [])
unfolding list clean_key equal s3_prefix relative trim_slash
two_pages = refl

list-ok_iff_example :
    (list sdk bucket 2 live [] [] ≡ (ok (complete entries), []))
    ↔ Listed sdk bucket live (codes "u/") 2 [] none entries []
list-ok_iff_example =
    list-ok_iff sdk bucket live 2 [] [] [] entries clean_root (slashed (codes "u"))

abbrev contents : World
contents = (codes "u/a", codes "1") ∷ (codes "u/c", codes "2") ∷ []

deleted :
    batch_delete sdk bucket live (codes "/a" ∷ codes "b" ∷ []) contents
    ≡ (ok tt, (codes "u/c", codes "2") ∷ [])
unfolding batch_delete delete_batches delete_batch identifiers s3_key clean_key clean equal erase
deleted = refl

batch_delete-AllRequested_example :
    AllRequested sdk bucket live contents
      (codes "/a" ∷ codes "b" ∷ [])
      ((codes "u/c", codes "2") ∷ [])
batch_delete-AllRequested_example =
    batch_delete-AllRequested sdk bucket live (codes "/a" ∷ codes "b" ∷ []) contents _ deleted

batch_delete-succeeds_example :
    (w' : World) × (batch_delete sdk bucket live (codes "/a" ∷ codes "b" ∷ []) contents
      ≡ (ok tt, w'))
batch_delete-succeeds_example =
    batch_delete-succeeds sdk bucket live (λ w. refl) (λ objects w few. (_, refl))
      (codes "/a" ∷ codes "b" ∷ []) contents (one_more key_a (one_more key_b no_keys))

access-Answers_example :
    Answers bucket live (codes "/a") (codes "u/a") [] (access bucket live (codes "/a") [])
access-Answers_example = access-Answers bucket live (codes "/a") [] key_a

signed :
    access bucket live (codes "/a") []
    ≡ (ok (record { path = []; url = codes "https://s3/u/a" }), [])
unfolding access s3_key clean_key clean equal
signed = refl

-- With a prefix that has no slash at its end, the object of a key at the root is not below the
-- prefix that List asks for at the root.
unlisted :
    (s3_key unslashed (codes "a") ≡ ok (codes "ua"))
    × (s3_prefix unslashed [] ≡ codes "u/")
    × (has_prefix (codes "ua") (codes "u/") ≡ false)
unfolding s3_key clean_key clean equal s3_prefix
unlisted = (refl, refl, refl)

no_key_func : bucket.key_func ≡ none
no_key_func = refl

bucket-client : Bucket held (drop 2) bucket.bucket live bucket.client
bucket-client = client-Bucket

object-IsStore_example :
    IsStore
      (IsPlainKey (drop 2) bucket)
      (Keeps held)
      (keyed held (object_key bucket))
      live
      (as_fs sdk 3 (foreign 7) 1 bucket)
object-IsStore_example =
    object-IsStore sdk held (drop 2) 3 (foreign 7) 1 bucket live bucket-client no_key_func

-- Their keys in the bucket are read back as they are.
a-IsPlainKey : IsPlainKey (drop 2) bucket (codes "a")
a-IsPlainKey = record { clean = clean_key-IsKey (codes "/a") clean_a; unescaped = refl }
