-- ===== src/Crossbeam/Batch.antt =====
-- The injector queue of the crate crossbeam as several threads use it at once, a call being atomic:
-- an interface with what its documentation says of the calls, and a plain list that meets it.
use mathlib.Core.Path.{◌≡◌, refl}
use mathlib.Core.Bool.{Bool, true, false}
use mathlib.Core.List.{List, [], ◌∷◌, ◌++◌}
use native.Mathlib.Omega.{arith}

-- `StealsBatch q a batch q'`: `steal_batch_and_pop` may return `a` and move `batch` to the worker's own
-- queue, which is empty, and then leaves `q'`. How many it moves is not documented.
pub record BatchInjector (A : Type 0) : Type 1 where
  pub Queue : Type 0
  pub new : Queue
  pub push : Queue → A → Queue
  pub StealsBatch : Queue → A → List A → Queue → Type 0
  pub is_empty : Queue → Bool
  pub items : Queue → List A
  pub items-new : items new ≡ []
  pub items-push : (q : Queue) (a : A) → items (push q a) ≡ items q ++ a ∷ []
  pub StealsBatch-items :
      (q q' : Queue) (a : A) (batch : List A)
      → StealsBatch q a batch q'
      → items q ≡ a ∷ (batch ++ items q')
  pub is_empty-items : (q : Queue) → is_empty q ≡ true → items q ≡ []

abbrev pub is_nil {ℓ} : {A : Type ℓ} → List A → Bool
is_nil [] = true
is_nil (x ∷ xs) = false

pub is_nil→eq : {A : Type 0} (xs : List A) → is_nil xs ≡ true → xs ≡ []
is_nil→eq [] h = refl
is_nil→eq (x ∷ xs) h = ground arith

abbrev pub list_batch_injector : (A : Type 0) → BatchInjector A
list_batch_injector A = record {
  Queue = List A;
  new = [];
  push = λ q a. q ++ a ∷ [];
  StealsBatch = λ q a batch q'. q ≡ a ∷ (batch ++ q');
  is_empty = is_nil;
  items = λ q. q;
  items-new = refl;
  items-push = λ q a. refl;
  StealsBatch-items = λ q q' a batch h. h;
  is_empty-items = is_nil→eq;
}
