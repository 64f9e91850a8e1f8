-- ===== src/Prelude/Outcomes.antt =====
-- What a call of the program comes to: a value, or the way in which it fails.
use Prim.Native.Nat.{ℕ, ◌<◌}
use mathlib.Core.Path.{◌≡◌, refl, subst}
use mathlib.Core.Bool.{Bool, true, false}
use mathlib.Core.List.{List}
use mathlib.Core.Option.{Option, none, some}
use native.Mathlib.Omega.{arith}
use immix_rust.Prelude.Tests.{ltb, if◌then◌else◌}
use immix_rust.Prelude.Lists.{length, get_elem?, set, get_elem?-some}

pub data Failure : Type 0 where
  out_of_bounds : Failure  -- a raw pointer is read or written outside its allocation
  panicked : Failure  -- a Rust panic
  out_of_fuel : Failure  -- the model's bound on the rounds of a loop

pub data Outcome {ℓ} (A : Type ℓ) : Type ℓ where
  ok : A → Outcome A
  err : Failure → Outcome A

infixl 5 ◌>>=◌ ◌>>◌
abbrev pub ◌>>=◌ {ℓ κ} : {A : Type ℓ} {B : Type κ} → Outcome A → (A → Outcome B) → Outcome B
ok value >>= next = next value
err failure >>= next = err failure

abbrev pub ◌>>◌ {ℓ} : {B : Type ℓ} → Outcome (Unit {0}) → Outcome B → Outcome B
first >> second = first >>= λ _. second

abbrev pub check : Bool → Failure → Outcome (Unit {0})
check true e = ok tt
check false e = err e

abbrev pub of_option {ℓ} : {A : Type ℓ} → Failure → Option A → Outcome A
of_option e none = err e
of_option e (some a) = ok a

module _ {ℓ} {A : Type ℓ} where
  -- `*ptr.add(i)` for a pointer to an allocation that holds `cells`.
  abbrev pub load : List A → ℕ → Outcome A
  load cells i = of_option out_of_bounds (get_elem? cells i)

  -- `*ptr.add(i) = v`
  abbrev pub store : List A → ℕ → A → Outcome (List A)
  store cells i v = if ltb i (length cells) then ok (set cells i v) else err out_of_bounds

  pub load-ok : (cells : List A) (i : ℕ) → i < length cells → (a : A) × (load cells i ≡ ok a)
  load-ok cells i h = let (a, e) = get_elem?-some cells i h in (a, rw e)

  pub load-some :
      (cells : List A) (i : ℕ) {a : A} → load cells i ≡ ok a → get_elem? cells i ≡ some a
  load-some cells i h = ground arith

pub >>=-eq-ok {ℓ κ} :
    {A : Type ℓ} {B : Type κ} (m : Outcome A) (next : A → Outcome B) {b : B}
    → (m >>= next) ≡ ok b
    → (value : A) × (m ≡ ok value) × (next value ≡ ok b)
>>=-eq-ok (ok value) next run = (value, refl, run)
>>=-eq-ok (err failure) next run = cc

-- What holds of the value, if there is one.
abbrev pub Ensures {ℓ κ} : {A : Type ℓ} → (A → Type κ) → Outcome A → Type κ
Ensures P (ok a) = P a
Ensures P (err _) = Unit

pub Ensures-bind {ℓ κ μ ν} :
    {A : Type ℓ} {B : Type κ} (Q : A → Type μ) (P : B → Type ν) (m : Outcome A) (f : A → Outcome B)
    → Ensures Q m
    → ((a : A) → Q a → Ensures P (f a))
    → Ensures P (m >>= f)
Ensures-bind Q P (ok a) f h k = k a h
Ensures-bind Q P (err e) f h k = tt

pub Ensures-ok {ℓ κ} :
    {A : Type ℓ} (P : A → Type κ) (m : Outcome A) (a : A) → Ensures P m → m ≡ ok a → P a
Ensures-ok P m a h e = subst (Ensures P) e h

pub Ensures-of_ok {ℓ κ} :
    {A : Type ℓ} (P : A → Type κ) (m : Outcome A) → ((a : A) → m ≡ ok a → P a) → Ensures P m
Ensures-of_ok P (ok a) f = f a refl
Ensures-of_ok P (err e) f = tt

pub Ensures-map {ℓ κ μ} :
    {A : Type ℓ} (Q : A → Type κ) (P : A → Type μ) (m : Outcome A)
    → ((a : A) → Q a → P a)
    → Ensures Q m
    → Ensures P m
Ensures-map Q P (ok a) f h = f a h
Ensures-map Q P (err e) f h = tt
