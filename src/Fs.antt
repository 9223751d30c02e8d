-- ===== src/Fs.antt =====
-- fs.go: the interface that every store implements, its optional parts, and the operations that
-- go by the interface alone.
pub mod Batch
pub mod Contents
pub mod Transfer
pub mod Presence
pub mod Keyed
pub mod Store
pub mod Copying
pub mod Readers
use mathlib.Core.List.{foldl}
use vire_fs.Base.{ℕ, Bool, true, false, Option, none, some, List, [], ◌∷◌, ◌==◌, if◌then◌else◌}
use vire_fs.Base.Int.{ℤ, pos}
use vire_fs.Bytes.{Bytes}
use vire_fs.Errors.{Error, wrap, Result, ok, err}
use vire_fs.Effect.{
  Action, Context, pure, fail, ◌>>=◌, ◌>>◌, then_run, map_error, or_error, check, deferred,
}

-- A moment in time; 0 is Go's zero `time.Time`.
abbrev pub Time : Type 0
Time = ℕ

-- A `time.Duration`, in nanoseconds.
abbrev pub Duration : Type 0
Duration = ℤ

pub record FileInfo : Type 0 where
  pub key : Bytes
  pub size : ℤ
  pub last_modified : Time
  pub is_dir : Bool
  pub content_type : Bytes

-- The zero value.
abbrev pub no_info : FileInfo
no_info = record { key = []; size = pos 0; last_modified = 0; is_dir = false; content_type = [] }

pub record PutConfig : Type 0 where
  pub content_type : Bytes
  pub metadata : List (Bytes × Bytes)

abbrev pub PutOption : Type 0
PutOption = PutConfig → PutConfig

-- The options are applied in order, to the zero value.
unfoldable pub build_put_config : List PutOption → PutConfig
build_put_config opts = foldl (λ c o. o c) (record { content_type = []; metadata = [] }) opts

unfoldable pub with_content_type : Bytes → PutOption
with_content_type ct c = record c { content_type = ct }

unfoldable pub with_metadata : List (Bytes × Bytes) → PutOption
with_metadata m c = record c { metadata = m }

pub record AccessInfo : Type 0 where
  pub path : Bytes
  pub url : Bytes

pub record PresignedRequest : Type 0 where
  pub url : Bytes
  pub method : Bytes
  pub header : List (Bytes × List Bytes)

abbrev pub KeyFunc : Type 0
KeyFunc = Bytes → Bytes

-- The function may return nil.
abbrev pub AccessFunc : Type 0
AccessFunc = Bytes → Option AccessInfo

-- `io.Reader`, read to its end: the bytes, and the error that ended the reading if it was not EOF.
abbrev pub Reader : Type 0 → Type 0
Reader W = W → (Bytes × Option Error) × W

-- `io.Copy` into what takes the bytes: what was read is written, then an error of the reader is
-- reported.
abbrev pub io_copy : {W : Type 0} → (Bytes → Action W (Unit {0})) → Reader W → Action W (Unit {0})
io_copy write read w = let ((b, e), v) = read w in (write b >> or_error e tt) v

-- `io.ReadCloser`; no caller looks at the error of `Close`.
pub record ReadCloser (W : Type 0) : Type 0 where
  pub read : Reader W
  pub close : W → W

-- What List returns, a struct around its files.
abbrev pub ListResult : Type 0
ListResult = List FileInfo

-- The optional interfaces, of one method each but for the last.
abbrev pub Copier : Type 0 → Type 0
Copier W = Context W → Bytes → Bytes → Action W (Unit {0})

abbrev pub BatchDeleter : Type 0 → Type 0
BatchDeleter W = Context W → List Bytes → Action W (Unit {0})

pub record Presigner (W : Type 0) : Type 0 where
  pub presign_get : Context W → Bytes → Duration → Action W PresignedRequest
  pub presign_put : Context W → Bytes → Duration → Action W PresignedRequest

-- The interface `FS`. A store that does not implement an optional interface has `none` there, and
-- `identity` is what `==` compares.
pub record Fs (W : Type 0) : Type 0 where
  pub identity : ℕ
  pub get : Context W → Bytes → Action W (ReadCloser W)
  pub put : Context W → Bytes → Reader W → List PutOption → Action W (Unit {0})
  pub delete : Context W → Bytes → Action W (Unit {0})
  pub list : Context W → Bytes → Action W ListResult
  pub stat : Context W → Bytes → Action W FileInfo
  pub access : Context W → Bytes → Action W AccessInfo
  pub exists : Context W → Bytes → Action W Bool
  pub copier : Option (Copier W)
  pub batch_deleter : Option (BatchDeleter W)

module _ {W : Type 0} where
  -- The package-level `Exists`.
  unfoldable pub exists : Context W → Fs W → Bytes → Action W Bool
  exists ctx fs key = fs.exists ctx key

  -- The loop of `BatchDelete`.
  unfoldable pub delete_each : Context W → Fs W → List Bytes → Action W (Unit {0})
  delete_each ctx fs [] = pure tt
  delete_each ctx fs (key ∷ keys) = do check ctx; fs.delete ctx key; delete_each ctx fs keys

  unfoldable pub batch_delete : Context W → Fs W → List Bytes → Action W (Unit {0})
  unfolding delete_each
  batch_delete ctx fs keys = elim fs.batch_deleter [
    | some native ↦ native ctx keys
    | none ↦ delete_each ctx fs keys
  ]

  -- Get and Put, with the reader closed at the end; `wrap_get` adds the context to an error of Get.
  abbrev pub transfer :
      Context W
      → Fs W
      → Bytes
      → Fs W
      → Bytes
      → List PutOption
      → (Error → Error)
      → Action W (Unit {0})
  transfer ctx src src_key dst dst_key opts wrap_get = do
    rc ← map_error wrap_get (src.get ctx src_key)
    deferred rc.close (dst.put ctx dst_key rc.read opts)

  -- The native copy of the store, if both sides are one store and it has one.
  abbrev pub native_copier : Fs W → Fs W → Option (Copier W)
  native_copier src dst = if src.identity == dst.identity then src.copier else none

  unfoldable pub copy :
      Context W → Fs W → Bytes → Fs W → Bytes → List PutOption → Action W (Unit {0})
  copy ctx src src_key dst dst_key opts = elim (native_copier src dst) [
    | some native ↦ native ctx src_key dst_key
    | none ↦ transfer ctx src src_key dst dst_key opts (wrap "copy: get %q: %w" (src_key ∷ []))
  ]
