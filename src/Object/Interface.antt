-- ===== src/Object/Interface.antt =====
-- objectfs.go: the store as one of the interface.
use vire_fs.Base.{ℕ, some, List}
use vire_fs.Errors.{Error}
use vire_fs.Effect.{Action, pure, fail, ◌>>=◌}
use vire_fs.Fs.{Fs, FileInfo, Presigner}
use vire_fs.Object.{Aws, ObjectFs}
use vire_fs.Object.Objects.{get, put, delete, stat, exists, copy}
use vire_fs.Object.Listing.{Listing, complete, unfinished, list}
use vire_fs.Object.Links.{access, presign_get, presign_put}
use vire_fs.Object.Bulk.{batch_delete}

abbrev answer_of : {W : Type 0} → Error → Listing → Action W (List FileInfo)
answer_of unended (complete files) = pure files
answer_of unended unfinished = fail unended

-- It has the optional interfaces Copier and BatchDeleter. `unended` stands for a List that asks for
-- more pages than allowed; the source goes on with it.
unfoldable pub as_fs : Aws → {W : Type 0} → (pages : ℕ) → Error → ℕ → ObjectFs W → Fs W
as_fs aws pages unended identity o = record {
  identity = identity;
  get = get aws o;
  put = put aws o;
  delete = delete aws o;
  list = λ ctx prefix. list aws o pages ctx prefix >>= answer_of unended;
  stat = stat aws o;
  access = access o;
  exists = exists aws o;
  copier = some (copy aws o);
  batch_deleter = some (batch_delete aws o);
}

-- And the interface Presigner, whether or not there is a presign client.
unfoldable pub as_presigner : {W : Type 0} → ObjectFs W → Presigner W
as_presigner o = record { presign_get = presign_get o; presign_put = presign_put o }
