-- ===== src/Errors.antt =====
-- The errors of fs.go and walk.go, wrapping, and `errors.Is`.
use Prim.Native.String.{String}
use vire_fs.Base.{ℕ, Bool, true, false, List, ◌≡◌, refl, ap, ◌⊎◌, inl, inr, arith}
use vire_fs.Bytes.{Bytes}

pub data Sentinel : Type 0 where
  not_found invalid_key already_exist not_supported permission : Sentinel
  skip_dir : Sentinel

-- `wrap format args e` is `fmt.Errorf(format, args..., e)` with `%w` for `e`, and `message` is
-- `fmt.Errorf` without `%w`. What other packages return (os, the S3 client, a context) is
-- `foreign`, told apart by a number.
pub data Error : Type 0 where
  sentinel : Sentinel → Error
  foreign : ℕ → Error
  message : String → List Bytes → Error
  wrap : String → List Bytes → Error → Error
  op_error : String → Bytes → Error → Error

abbrev pub same_sentinel : Sentinel → Sentinel → Bool
same_sentinel not_found not_found = true
same_sentinel invalid_key invalid_key = true
same_sentinel already_exist already_exist = true
same_sentinel not_supported not_supported = true
same_sentinel permission permission = true
same_sentinel skip_dir skip_dir = true
same_sentinel _ _ = false

-- `errors.Is(e, target)` for a sentinel as the target: the chain of `Unwrap` is searched.
abbrev pub errors_is : Error → Sentinel → Bool
errors_is (sentinel s) t = same_sentinel s t
errors_is (foreign n) t = false
errors_is (message _ _) t = false
errors_is (wrap _ _ e) t = errors_is e t
errors_is (op_error _ _ e) t = errors_is e t

-- The `(value, error)` that a Go function returns.
pub data Result {ℓ} (A : Type ℓ) : Type ℓ where
  ok : A → Result A
  err : Error → Result A

pub Result-cases {ℓ} :
    {A : Type ℓ} (r : Result A) → ((a : A) × (r ≡ ok a)) ⊎ ((e : Error) × (r ≡ err e))
Result-cases (ok a) = inl (a, refl)
Result-cases (err e) = inr (e, refl)

pub ok-injective {ℓ} : {A : Type ℓ} {a b : A} → ok a ≡ ok b → a ≡ b
ok-injective e = cc

pub err-injective {ℓ} : {A : Type ℓ} {d e : Error} → ◌≡◌ {A = Result A} (err d) (err e) → d ≡ e
err-injective e = cc

same_sentinel-eq : (s t : Sentinel) → same_sentinel s t ≡ true → s ≡ t
same_sentinel-eq not_found not_found _ = refl
same_sentinel-eq invalid_key invalid_key _ = refl
same_sentinel-eq already_exist already_exist _ = refl
same_sentinel-eq not_supported not_supported _ = refl
same_sentinel-eq permission permission _ = refl
same_sentinel-eq skip_dir skip_dir _ = refl
same_sentinel-eq _ _ h = ground arith

-- A chain of wrapped errors ends in one sentinel at most.
pub errors_is-same_sentinel :
    (e : Error) (s t : Sentinel) → errors_is e s ≡ true → errors_is e t ≡ same_sentinel s t
errors_is-same_sentinel (sentinel s') s t h = ap (λ r. same_sentinel r t) (same_sentinel-eq s' s h)
errors_is-same_sentinel (foreign n) s t h = ground arith
errors_is-same_sentinel (message _ _) s t h = ground arith
errors_is-same_sentinel (wrap _ _ e) s t h = errors_is-same_sentinel e s t h
errors_is-same_sentinel (op_error _ _ e) s t h = errors_is-same_sentinel e s t h
