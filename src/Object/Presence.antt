-- ===== src/Object/Presence.antt =====
-- What Exists says, by what Stat says.
use vire_fs.Base.{inl, inr, ◌≡◌, refl}
use vire_fs.Bytes.{Bytes}
use vire_fs.Errors.{ok, err, Result, Result-cases}
use vire_fs.Effect.{Context, pure, ◌>>=◌}
use vire_fs.Fs.Presence.{found_by_stat, invalid-not_found}
use vire_fs.Key.{clean_key}
use vire_fs.Key.Laws.{clean_key-errors_is}
use vire_fs.Object.{Aws, ObjectFs, HeadObjectOutput, s3_key, report}
use vire_fs.Object.Objects.{stat, exists, head_answer, head_info}

module _ (aws : Aws) {W : Type 0} (o : ObjectFs W) (ctx : Context W) where
  by_head :
      (key : Bytes) (w : W) (r : Result HeadObjectOutput × W)
      → head_answer aws o key r
        ≡ found_by_stat key
            ((report aws "Stat" key (λ _. r) >>= λ out. pure (head_info aws o key out)) w)
  by_head key w (ok out, w') = refl
  by_head key w (err e, w') = refl

  -- Exists says true exactly where Stat succeeds and false exactly where Stat fails with
  -- ErrNotFound; any other error of Stat is the one of Exists, up to the name of the operation.
  exists-stat :
      (key : Bytes) (w : W) → exists aws o ctx key w ≡ found_by_stat key (stat aws o ctx key w)
  unfolding exists stat s3_key
  exists-stat key w = elim (Result-cases (clean_key key)) [
    | inl (cleaned, p) ↦ rw p (by_head key w _)
    | inr (e, p) ↦ rw (p, invalid-not_found e (clean_key-errors_is key p)) refl
  ]
