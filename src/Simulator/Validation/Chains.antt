-- ===== src/Simulator/Validation/Chains.antt =====
-- How a chain of tests that returns at the first failure came to succeed.
use go_aioesphomeapi.Base.{
  ℕ, ◌≡◌, refl, ◌≢◌, Bool, true, false, Option, none, some, if◌then◌else◌, Result, ◌>>=◌, ◌>>◌,
  refuse, ok, err,
}
use go_aioesphomeapi.Simulator.Validation.{ValidationError}

pub ok_eq : (r : Result ValidationError ℕ) (a b : ℕ) → r ≡ ok a → r ≡ ok b → a ≡ b
ok_eq r a b e h = cc

pub some_eq {ℓ} : {A : Type ℓ} {a b : A} → some a ≡ some b → a ≡ b
some_eq e = cc

pub err_ok {ℓ κ} : {E : Type ℓ} {B : Type κ} (x : E) (b : B) → err x ≢ ok b
err_ok x b e = cc

pub some-none {ℓ} : {A : Type ℓ} (a : A) → some a ≢ none
some-none a e = cc

-- How a chain of tests came to succeed.
pub option_some_ok {ℓ κ μ} :
    {A : Type ℓ} {E : Type κ} {B : Type μ} (o : Option A) (x : E) (f : A → Result E B) (b : B)
    → elim o [ none ↦ err x | some a ↦ f a ] ≡ ok b
    → (a : A) × (o ≡ some a) × (f a ≡ ok b)
option_some_ok none x f b e = absurd (err_ok x b e)
option_some_ok (some a) x f b e = (a, refl, e)

pub option_none_ok {ℓ κ μ} :
    {A : Type ℓ} {E : Type κ} {B : Type μ} (o : Option A) (g : A → E) (r : Result E B) (b : B)
    → elim o [ some a ↦ err (g a) | none ↦ r ] ≡ ok b
    → (o ≡ none) × (r ≡ ok b)
option_none_ok none g r b e = (refl, e)
option_none_ok (some a) g r b e = absurd (err_ok (g a) b e)

pub result_ok {ℓ κ μ} :
    {E : Type ℓ} {A : Type κ} {B : Type μ} (r : Result E A) (f : A → Result E B) (b : B)
    → elim r [ err e ↦ err e | ok a ↦ f a ] ≡ ok b
    → (a : A) × (r ≡ ok a) × (f a ≡ ok b)
result_ok (ok a) f b e = (a, refl, e)
result_ok (err x) f b e = absurd (err_ok x b e)

pub bind_ok {ℓ κ μ} :
    {E : Type ℓ} {A : Type κ} {B : Type μ} (r : Result E A) (f : A → Result E B) (b : B)
    → (r >>= f) ≡ ok b
    → (a : A) × (r ≡ ok a) × (f a ≡ ok b)
bind_ok (ok a) f b e = (a, refl, e)
bind_ok (err x) f b e = absurd (err_ok x b e)

pub refuse_ok {ℓ κ} :
    {E : Type ℓ} {B : Type κ} (test : Bool) (x : E) (r : Result E B) (b : B)
    → (refuse test x >> r) ≡ ok b
    → (test ≡ false) × (r ≡ ok b)
refuse_ok true x r b e = absurd (err_ok x b e)
refuse_ok false x r b e = (refl, e)

pub if_some-none {ℓ} :
    {A : Type ℓ} (b : Bool) (a : A) (o : Option A)
    → (if b then some a else o) ≡ none
    → (b ≡ false) × (o ≡ none)
if_some-none true a o e = absurd (some-none a e)
if_some-none false a o e = (refl, e)
