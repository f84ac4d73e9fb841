-- ===== src/Fault.antt =====
-- How a call can stop: by a failed `assert` or a fatal message, which abort the process; by the use of memory
-- that is not there (`dangling`): an object that was deleted, a null pointer, or a place behind the end of an
-- array, which C++ leaves undefined; or by the exception that `std::vector::resize` throws above its largest
-- size, or `std::string::substr` behind the end. A loop that never ends has no value at all, so loops that may
-- not end carry fuel and have the fault `out_of_fuel`.
use yvent.Prelude.{◌≡◌, refl, Bool, true, false}

pub data Fault : Type 0 where
  assertion fatal dangling length_error out_of_range out_of_fuel : Fault

pub data Result {ℓ} (A : Type ℓ) : Type ℓ where
  ok : A → Result A
  err : Fault → Result A

-- What follows a call is not reached where the call stops.
infixl 5 ◌>>=◌ ◌>>◌
abbrev pub ◌>>=◌ {ℓ κ} :
    {B : Type κ} {A : Type ℓ} (call : Result A) (next : A → Result B) → Result B
ok value >>= next = next value
err fault >>= next = err fault

abbrev pub ◌>>◌ {ℓ} : {B : Type ℓ} (call : Result (Unit {0})) (next : Result B) → Result B
call >> next = call >>= λ done. next

-- `assert (b)`.
abbrev pub check : Bool → Result (Unit {0})
check true = ok tt
check false = err assertion

-- The call comes back, and its result has the property.
pub data Returns {ℓ κ} {A : Type ℓ} (P : A → Type κ) : Result A → Type (ℓ ⊔ κ) where
  returns : (a : A) → P a → Returns P (ok a)

module _ {ℓ κ} {A : Type ℓ} {P : A → Type κ} where
  pub returned : (m : Result A) {a : A} → m ≡ ok a → P a → Returns P m
  returned m {a} e p = rw e (returns a p)

  pub Returns-bind {ℓ' κ'} :
      {B : Type ℓ'} {Q : B → Type κ'} (m : Result A) (f : A → Result B)
      → Returns P m
      → ((a : A) → P a → Returns Q (f a))
      → Returns Q (m >>= f)
  Returns-bind m f (returns a p) k = k a p

  pub Returns-ok : {m : Result A} → Returns P m → (a : A) × (m ≡ ok a) × P a
  Returns-ok (returns a p) = (a, refl, p)

-- A call that came back: what its first part gave, and that the rest came back.
pub bind-ok {ℓ κ} :
    {A : Type ℓ} {B : Type κ} (m : Result A) (f : A → Result B) {b : B}
    → m >>= f ≡ ok b
    → (a : A) × (m ≡ ok a) × (f a ≡ ok b)
bind-ok (ok a) f e = (a, refl, e)
bind-ok (err fault) f e = absurd cc

pub ok-inj {ℓ} : {A : Type ℓ} {a b : A} → ok a ≡ ok b → a ≡ b
ok-inj {a} e = cc
