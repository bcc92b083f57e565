-- ===== src/Base/Outcome.antt =====
-- How a piece of C++ code ends: with a value, or by a fault that no code of the program handles.
use mathlib.Core.Path.{◌≡◌, refl, subst}

-- `bad_read`: a read outside an array, undefined in C. `out_of_range`: the exception of
-- `std::vector::at`, which the program never catches. `null_file`: a stream function at the null
-- pointer that a failed `fopen` returned. `overflow`: a `sprintf` or `memset` behind the end of its
-- array. `failed_assert`: an `assert` that ends the program. `out_of_fuel` is the model's own.
pub data Fault : Type 0 where
  bad_read out_of_range null_file overflow failed_assert out_of_fuel : Fault

pub data Outcome {ℓ} (A : Type ℓ) : Type ℓ where
  done : A → Outcome A
  fault : Fault → Outcome A

infixl 5 ◌>>=◌
abbrev pub ◌>>=◌ {ℓ κ} : {A : Type ℓ} {B : Type κ} → Outcome A → (A → Outcome B) → Outcome B
done a >>= f = f a
fault e >>= f = fault e

pub >>=-eq-done {ℓ κ} :
    {A : Type ℓ} {B : Type κ} (m : Outcome A) (f : A → Outcome B) {b : B}
    → (m >>= f) ≡ done b
    → (a : A) × (m ≡ done a) × (f a ≡ done b)
>>=-eq-done (done a) f h = (a, refl, h)
>>=-eq-done (fault e) f h = cc

pub done-injective {ℓ} : {A : Type ℓ} {a b : A} → done a ≡ done b → a ≡ b
done-injective h = cc

-- What holds of the value, if there is one.
abbrev pub Returns {ℓ κ} : {A : Type ℓ} → (A → Type κ) → Outcome A → Type κ
Returns P (done a) = P a
Returns P (fault e) = Unit {κ}

pub >>=-Returns {ℓ κ μ} :
    {A : Type ℓ} {B : Type κ} (Q : A → Type μ) (P : B → Type μ) (m : Outcome A) (f : A → Outcome B)
    → Returns Q m
    → ((a : A) → Q a → Returns P (f a))
    → Returns P (m >>= f)
>>=-Returns Q P (done a) f q h = h a q
>>=-Returns Q P (fault e) f q h = tt

pub Returns-done {ℓ κ} :
    {A : Type ℓ} (P : A → Type κ) (m : Outcome A) (a : A) → m ≡ done a → Returns P m → P a
Returns-done P (done b) a h p = subst P (done-injective h) p
Returns-done P (fault e) a h p = absurd (cc)

pub any-Returns {ℓ} : {A : Type ℓ} (m : Outcome A) → Returns (λ _. Unit {0}) m
any-Returns (done a) = tt
any-Returns (fault e) = tt

-- There is a value, and this holds of it.
abbrev pub Succeeds {ℓ} : {A : Type ℓ} → (A → Type 0) → Outcome A → Type 0
Succeeds P (done a) = P a
Succeeds P (fault e) = ⊥

pub >>=-Succeeds {ℓ κ} :
    {A : Type ℓ} {B : Type κ} (Q : A → Type 0) (P : B → Type 0) (m : Outcome A) (f : A → Outcome B)
    → Succeeds Q m
    → ((a : A) → Q a → Succeeds P (f a))
    → Succeeds P (m >>= f)
>>=-Succeeds Q P (done a) f q h = h a q
>>=-Succeeds Q P (fault e) f q h = absurd q

pub Succeeds-done {ℓ} :
    {A : Type ℓ} (P : A → Type 0) (m : Outcome A) → Succeeds P m → (a : A) × (m ≡ done a) × P a
Succeeds-done P (done a) p = (a, refl, p)
Succeeds-done P (fault e) p = absurd p
