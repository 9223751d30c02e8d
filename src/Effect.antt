-- ===== src/Effect.antt =====
-- Effects in Go's manner: a step reads and changes the world `W`, which holds every store, and
-- returns a value or an error.
use vire_fs.Base.{Option, none, some, Option-cases, ◌⊎◌, inl, inr, ◌≡◌, refl, sym, ap}
use vire_fs.Errors.{Error, Result, ok, err, err-injective}

abbrev pub Action : Type 0 → Type 0 → Type 0
Action W A = W → Result A × W

-- `ctx.Err()`: the error of a context that is cancelled or past its deadline in the given world.
abbrev pub Context : Type 0 → Type 0
Context W = W → Option Error

abbrev pub pure : {W A : Type 0} → A → Action W A
pure a w = (ok a, w)

abbrev pub fail : {W A : Type 0} → Error → Action W A
fail e w = (err e, w)

abbrev pub then_run : {W A B : Type 0} → Result A × W → (A → Action W B) → Result B × W
then_run (ok a, w) f = f a w
then_run (err e, w) f = (err e, w)

infixl 5 ◌>>=◌ ◌>>◌
abbrev pub ◌>>=◌ : {W A B : Type 0} → Action W A → (A → Action W B) → Action W B
◌>>=◌ m f w = then_run (m w) f

abbrev pub ◌>>◌ : {W B : Type 0} → Action W (Unit {0}) → Action W B → Action W B
m >> k = m >>= λ _. k

abbrev map_result_error : {A : Type 0} → (Error → Error) → Result A → Result A
map_result_error f (ok a) = ok a
map_result_error f (err e) = err (f e)

-- `if err != nil { return f(err) }` around a step.
abbrev pub map_error : {W A : Type 0} → (Error → Error) → Action W A → Action W A
map_error f m w = (map_result_error f (m w).0, (m w).1)

-- A result that is known without a step.
abbrev pub lift : {W A : Type 0} → Result A → Action W A
lift r w = (r, w)

abbrev pub or_error : {W A : Type 0} → Option Error → A → Action W A
or_error none a = pure a
or_error (some e) a = fail e

-- `if err := ctx.Err(); err != nil { return err }`
abbrev pub check : {W : Type 0} → Context W → Action W (Unit {0})
check ctx w = or_error (ctx w) tt w

-- `defer f()`, for an `f` whose result is dropped.
abbrev pub deferred : {W A : Type 0} → (W → W) → Action W A → Action W A
deferred f m w = ((m w).0, f (m w).1)

-- A step, and what is done if it fails.
abbrev pub on_error : {W A : Type 0} → (W → W) → Result A × W → Result A × W
on_error clean_up (ok a, w) = (ok a, w)
on_error clean_up (err e, w) = (err e, clean_up w)

-- Inversion of a successful bind.
pub bind-eq-ok :
    {W A B : Type 0} (m : Action W A) (f : A → Action W B) (w : W) {b : B} {w' : W}
    → (m >>= f) w ≡ (ok b, w')
    → (a : A) × (v : W) × (m w ≡ (ok a, v)) × (f a v ≡ (ok b, w'))
bind-eq-ok {W} {A} {B} m f w {b} {w'} e = split_run (m w) refl e
  where
    split_run :
        (r : Result A × W)
        → m w ≡ r
        → then_run r f ≡ (ok b, w')
        → (a : A) × (v : W) × (m w ≡ (ok a, v)) × (f a v ≡ (ok b, w'))
    split_run (ok a, v) p q = (a, v, p, q)
    split_run (err d, v) p q = cc

-- Inversion of a bind that failed: in its first part, or in its second.
pub bind-eq-err :
    {W A B : Type 0} (m : Action W A) (f : A → Action W B) (w : W) {e : Error} {w' : W}
    → (m >>= f) w ≡ (err e, w')
    → (m w ≡ (err e, w')) ⊎ ((a : A) × (v : W) × (m w ≡ (ok a, v)) × (f a v ≡ (err e, w')))
bind-eq-err {W} {A} {B} m f w {e} {w'} h = split_run (m w) refl h
  where
    split_run :
        (r : Result A × W)
        → m w ≡ r
        → then_run r f ≡ (err e, w')
        → (m w ≡ (err e, w')) ⊎ ((a : A) × (v : W) × (m w ≡ (ok a, v)) × (f a v ≡ (err e, w')))
    split_run (ok a, v) p q = inr (a, v, p, q)
    split_run (err d, v) p q = inl (cc)

map_result_error-eq-ok :
    {A : Type 0} (g : Error → Error) (r : Result A) {a : A} → map_result_error g r ≡ ok a → r ≡ ok a
map_result_error-eq-ok g (ok b) h = h
map_result_error-eq-ok g (err e) h = cc

pub map_error-eq-ok :
    {W A : Type 0} (g : Error → Error) (m : Action W A) (w : W) {a : A} {v : W}
    → map_error g m w ≡ (ok a, v)
    → m w ≡ (ok a, v)
map_error-eq-ok g m w {a} {v} h =
    let e = map_result_error-eq-ok g (m w).0 (ap (λ r. r.0) h) in λ i. (e i, (h i).1)

map_result_error-eq-err :
    {A : Type 0} (g : Error → Error) (r : Result A) {e : Error}
    → map_result_error g r ≡ err e
    → (d : Error) × (r ≡ err d) × (e ≡ g d)
map_result_error-eq-err g (ok b) h = cc
map_result_error-eq-err g (err d) h = (d, refl, sym (err-injective h))

pub map_error-eq-err :
    {W A : Type 0} (g : Error → Error) (m : Action W A) (w : W) {e : Error} {v : W}
    → map_error g m w ≡ (err e, v)
    → (d : Error) × (m w ≡ (err d, v)) × (e ≡ g d)
map_error-eq-err g m w {e} {v} h =
    let (d, p, q) = map_result_error-eq-err g (m w).0 (ap (λ r. r.0) h) in
    (d, λ i. (p i, (h i).1), q)

-- The step inside a deferred call.
pub deferred-eq :
    {W A : Type 0} (f : W → W) (m : Action W A) (w : W) {r : Result A} {v : W}
    → deferred f m w ≡ (r, v)
    → (u : W) × (m w ≡ (r, u)) × (v ≡ f u)
deferred-eq f m w h = ((m w).1, λ i. ((h i).0, (m w).1), ap (λ x. x.1) (sym h))

-- A context that lets a step go on changes nothing.
pub check-eq-ok :
    {W : Type 0} (ctx : Context W) (w v : W) {u : Unit {0}} → check ctx w ≡ (ok u, v) → w ≡ v
check-eq-ok ctx w v e = elim (Option-cases (ctx w)) [
  | inl alive ↦ ap (λ x. x.1) (rw alive at e)
  | inr (d, dead) ↦ cc (rw dead at e)
]
