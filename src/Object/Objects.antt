-- ===== src/Object/Objects.antt =====
-- objectfs.go: the operations on one object, and Copy.
use vire_fs.Base.{Bool, true, false, Option, none, some, List, [], ◌∷◌, ◌++◌, if◌then◌else◌}
use vire_fs.Bytes.{Bytes, codes, slash}
use vire_fs.Errors.{op_error, not_found, errors_is, Result, ok, err}
use vire_fs.Effect.{Action, Context, pure, ◌>>=◌}
use vire_fs.Fs.{FileInfo, ReadCloser, Reader, PutOption, build_put_config}
use vire_fs.Object.{
  Aws, ObjectFs, ObjectInput, PutObjectInput, HeadObjectOutput, map_s3_error, locate, report,
}

abbrev pub input : {W : Type 0} → ObjectFs W → Bytes → ObjectInput
input o s3k = record { bucket = o.bucket; key = s3k }

-- An optional parameter of PutObject is set if the configured value is not empty.
abbrev unless_empty {ℓ} : {A : Type ℓ} → List A → Option (List A)
unless_empty [] = none
unless_empty (x ∷ xs) = some (x ∷ xs)

abbrev pub put_input :
    {W : Type 0} → ObjectFs W → Bytes → Reader W → List PutOption → PutObjectInput W
put_input o s3k r opts =
    let cfg = build_put_config opts in
    record {
      bucket = o.bucket;
      key = s3k;
      body = r;
      content_type = unless_empty cfg.content_type;
      metadata = unless_empty cfg.metadata;
    }

module _ (aws : Aws) {W : Type 0} (o : ObjectFs W) where
  unfoldable pub get : Context W → Bytes → Action W (ReadCloser W)
  get ctx key = do
    s3k ← locate o "Get" key
    report aws "Get" key (o.client.get_object ctx (input o s3k))

  unfoldable pub put : Context W → Bytes → Reader W → List PutOption → Action W (Unit {0})
  put ctx key r opts = do
    s3k ← locate o "Put" key
    report aws "Put" key (o.client.put_object ctx (put_input o s3k r opts))

  unfoldable pub delete : Context W → Bytes → Action W (Unit {0})
  delete ctx key = do
    s3k ← locate o "Delete" key
    report aws "Delete" key (o.client.delete_object ctx (input o s3k))

  abbrev pub head_info : Bytes → HeadObjectOutput → FileInfo
  head_info key out = record {
    key = key;
    size = aws.to_int64 out.content_length;
    last_modified = aws.to_time out.last_modified;
    is_dir = false;
    content_type = aws.to_string out.content_type;
  }

  unfoldable pub stat : Context W → Bytes → Action W FileInfo
  stat ctx key = do
    s3k ← locate o "Stat" key
    out ← report aws "Stat" key (o.client.head_object ctx (input o s3k))
    pure (head_info key out)

  abbrev pub head_answer : Bytes → Result HeadObjectOutput × W → Result Bool × W
  head_answer key (ok out, w) = (ok true, w)
  head_answer key (err e, w) =
      let e' = map_s3_error aws e in
      (if errors_is e' not_found then ok false else err (op_error "Exists" key e'), w)

  unfoldable pub exists : Context W → Bytes → Action W Bool
  exists ctx key = do
    s3k ← locate o "Exists" key
    λ w. head_answer key (o.client.head_object ctx (input o s3k) w)

  unfoldable pub copy : Context W → Bytes → Bytes → Action W (Unit {0})
  copy ctx src_key dst_key = do
    src_s3k ← locate o "Copy" src_key
    dst_s3k ← locate o "Copy" dst_key
    report aws "Copy" (src_key ++ codes " -> " ++ dst_key) (
        o.client.copy_object ctx (record {
          bucket = o.bucket;
          copy_source = o.bucket ++ (slash ∷ src_s3k);
          key = dst_s3k;
        }))
