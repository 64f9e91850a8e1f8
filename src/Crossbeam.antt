-- ===== src/Crossbeam.antt =====
-- The injector queue of the crate crossbeam, which is not part of this repository: an interface with
-- what its documentation says of it, and a plain list as one queue that meets it.
pub mod Batch
use Prim.Native.Nat.{ℕ, ◌<◌}
use mathlib.Core.Path.{◌≡◌, refl}
use mathlib.Core.Logic.{◌⊎◌, inl, inr}
use mathlib.Core.List.{List, [], ◌∷◌, ◌++◌}
use native.Mathlib.Omega.{arith}

pub data Steal (A : Type 0) : Type 0 where
  empty : Steal A
  success : A → Steal A
  retry : Steal A

-- `items` lists the queue from its front. A `retry` leaves it as it is, and `retries` bounds how many
-- of them may follow one another.
pub record Injector (A : Type 0) : Type 1 where
  pub Queue : Type 0
  pub new : Queue
  pub push : Queue → A → Queue
  pub steal : Queue → Steal A × Queue
  pub items : Queue → List A
  pub retries : Queue → ℕ
  pub items-new : items new ≡ []
  pub items-push : (q : Queue) (a : A) → items (push q a) ≡ items q ++ a ∷ []
  pub steal-empty : (q q' : Queue) → steal q ≡ (empty, q') → (items q ≡ []) × (items q' ≡ [])
  pub steal-success : (q q' : Queue) (a : A) → steal q ≡ (success a, q') → items q ≡ a ∷ items q'
  pub steal-retry :
      (q q' : Queue) → steal q ≡ (retry, q') → (items q' ≡ items q) × (retries q' < retries q)

-- The three things that `steal` may return, with the equation.
pub steal-cases :
    {A : Type 0} (I : Injector A) (q : I.Queue)
    → ((q' : I.Queue) × (I.steal q ≡ (empty, q')))
      ⊎ ((a : A) × (q' : I.Queue) × (I.steal q ≡ (success a, q')))
      ⊎ ((q' : I.Queue) × (I.steal q ≡ (retry, q')))
steal-cases {A} I q = by_result (I.steal q).0 (I.steal q).1 refl
  where
    by_result :
        (s : Steal A) (q' : I.Queue)
        → I.steal q ≡ (s, q')
        → ((q' : I.Queue) × (I.steal q ≡ (empty, q')))
          ⊎ ((a : A) × (q' : I.Queue) × (I.steal q ≡ (success a, q')))
          ⊎ ((q' : I.Queue) × (I.steal q ≡ (retry, q')))
    by_result empty q' e = inl (q', e)
    by_result (success a) q' e = inr (inl (a, q', e))
    by_result retry q' e = inr (inr (q', e))

abbrev pub list_steal : {A : Type 0} → List A → Steal A × List A
list_steal [] = (empty, [])
list_steal (x ∷ xs) = (success x, xs)

module _ {A : Type 0} where
  pub list_steal-empty : (q q' : List A) → list_steal q ≡ (empty, q') → (q ≡ []) × (q' ≡ [])
  list_steal-empty [] q' h = ground arith
  list_steal-empty (x ∷ q) q' h = ground arith

  pub list_steal-success : (q q' : List A) (a : A) → list_steal q ≡ (success a, q') → q ≡ a ∷ q'
  list_steal-success [] q' a h = ground arith
  list_steal-success (x ∷ q) q' a h = ground arith

  pub list_steal-retry : (q q' : List A) → list_steal q ≡ (retry, q') → (q' ≡ q) × (0 < 0)
  list_steal-retry [] q' h = ground arith
  list_steal-retry (x ∷ q) q' h = ground arith

abbrev pub list_injector : (A : Type 0) → Injector A
list_injector A = record {
  Queue = List A;
  new = [];
  push = λ q a. q ++ a ∷ [];
  steal = list_steal;
  items = λ q. q;
  retries = λ _. 0;
  items-new = refl;
  items-push = λ q a. refl;
  steal-empty = list_steal-empty;
  steal-success = list_steal-success;
  steal-retry = list_steal-retry;
}
