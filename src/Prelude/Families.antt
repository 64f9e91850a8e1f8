-- ===== src/Prelude/Families.antt =====
-- A state for each of the threads `0 .. n - 1`: one of them changes, and how many satisfy a test.
use Prim.Native.Nat.{ℕ, zero, suc, ◌+◌, ◌≤◌, ◌<◌}
use mathlib.Core.Path.{◌≡◌, refl, sym, subst, ◌∙◌}
use mathlib.Core.Logic.{◌≢◌, inl, inr}
use mathlib.Core.Bool.{Bool, true, false}
use native.Mathlib.Omega.{arith}
use native.Mathlib.Decide.{dec_lt, ℕ_discrete}
use immix_rust.Prelude.Tests.{Bool-cases, ◌==◌, if◌then◌else◌}

abbrev pub with_thread {ℓ} : {A : Type ℓ} → ℕ → A → (ℕ → A) → ℕ → A
with_thread i a states j = if i == j then a else states j

abbrev pub as_one : Bool → ℕ
as_one true = 1
as_one false = 0

module _ {ℓ} {A : Type ℓ} (test : A → Bool) where
  unfoldable pub tally : ℕ → (ℕ → A) → ℕ
  tally zero states = 0
  tally (suc n) states = as_one (test (states n)) + tally n states

  pub tally-le : (n : ℕ) (states : ℕ → A) → tally n states ≤ n
  unfolding tally
  tally-le zero states = omega arith
  tally-le (suc n) states = ground (arith, tally-le n states)

  tally_beyond :
      (n i : ℕ) (a : A) (states : ℕ → A) → n ≤ i → tally n (with_thread i a states) ≡ tally n states
  unfolding tally
  tally_beyond zero i a states beyond = refl
  tally_beyond (suc n) i a states beyond = ground (arith, tally_beyond n i a states)

  -- The change of one thread changes the tally by that thread's part in it.
  pub tally-with_thread :
      (n i : ℕ) (a : A) (states : ℕ → A)
      → i < n
      → as_one (test (states i)) + tally n (with_thread i a states)
        ≡ as_one (test a) + tally n states
  unfolding tally
  tally-with_thread zero i a states below = absurd (omega arith)
  tally-with_thread (suc n) i a states below = elim (dec_lt i n) [
    | yes earlier ↦ ground (arith, tally-with_thread n i a states earlier)
    | no same ↦ ground (arith, tally_beyond n i a states)
  ]

  pub tally-at : (n i : ℕ) (states : ℕ → A) → i < n → as_one (test (states i)) ≤ tally n states
  unfolding tally
  tally-at zero i states below = absurd (omega arith)
  tally-at (suc n) i states below = elim (dec_lt i n) [
    | yes earlier ↦ omega (arith, tally-at n i states earlier)
    | no same ↦ ground arith
  ]

  -- A tally of 0 means that no thread satisfies the test.
  pub tally-none :
      (n : ℕ) (states : ℕ → A) → tally n states ≡ 0 → (i : ℕ) → i < n → test (states i) ≡ false
  unfolding tally
  tally-none zero states nobody i below = absurd (omega arith)
  tally-none (suc n) states nobody i below = elim (dec_lt i n) [
    | yes earlier ↦ tally-none n states (omega arith) i earlier
    | no same ↦ ground arith
  ]

  pub tally-zero :
      (n : ℕ) (states : ℕ → A) → ((i : ℕ) → test (states i) ≡ false) → tally n states ≡ 0
  unfolding tally
  tally-zero zero states each = refl
  tally-zero (suc n) states each = ground (arith, each n, tally-zero n states each)

  pub tally-cong :
      (n : ℕ) (states states' : ℕ → A)
      → ((i : ℕ) → test (states i) ≡ test (states' i))
      → tally n states ≡ tally n states'
  unfolding tally
  tally-cong zero states states' each = refl
  tally-cong (suc n) states states' each = ground (arith, each n, tally-cong n states states' each)

  pub tally-all : (n : ℕ) (states : ℕ → A) → ((i : ℕ) → test (states i) ≡ true) → tally n states ≡ n
  unfolding tally
  tally-all zero states each = refl
  tally-all (suc n) states each = ground (arith, each n, tally-all n states each)

module _ {ℓ} {A : Type ℓ} (i : ℕ) (a : A) (states : ℕ → A) where
  pub with_thread_self : with_thread i a states i ≡ a
  with_thread_self = ground arith

  pub with_thread_other : (j : ℕ) → i ≢ j → with_thread i a states j ≡ states j
  with_thread_other j other = ground arith

module _ {ℓ} {A : Type ℓ} (small big : A → Bool)
    (imp : (a : A) → small a ≡ true → big a ≡ true) where
  as_one_imp : (a : A) → as_one (small a) ≤ as_one (big a)
  as_one_imp a = elim (Bool-cases (small a)) [
    | inl h ↦ rw (h, imp a h) (omega arith)
    | inr h ↦ rw h (omega arith)
  ]

  pub tally-imp : (n : ℕ) (states : ℕ → A) → tally small n states ≤ tally big n states
  unfolding tally
  tally-imp zero states = omega arith
  tally-imp (suc n) states = omega (arith, as_one_imp (states n), tally-imp n states)

  tally_below :
      (n : ℕ) (states : ℕ → A)
      → ((j : ℕ) → j < n → big (states j) ≡ true → small (states j) ≡ true)
      → tally big n states ≤ tally small n states
  unfolding tally
  tally_below zero states others = omega arith
  tally_below (suc n) states others =
      let rest = tally_below n states (λ j jb. others j (omega arith)) in
      elim (Bool-cases (big (states n))) [
        | inr b ↦ rw b (omega (arith, rest))
        | inl b ↦ rw (b, others n (omega arith) b) (omega (arith, rest))
      ]

  false-true : false ≡ true → ⊥
  false-true e = cc

  -- If only one thread may satisfy just the weaker test, the difference is at most one.
  pub tally_at_most_one_more :
      (n i : ℕ) (states : ℕ → A)
      → ((j : ℕ) → j < n → i ≢ j → big (states j) ≡ true → small (states j) ≡ true)
      → tally big n states ≤ tally small n states + 1
  unfolding tally
  tally_at_most_one_more zero i states others = omega arith
  tally_at_most_one_more (suc n) i states others =
      let rest = tally_at_most_one_more n i states (λ j jb. others j (omega arith)) in
      elim (Bool-cases (big (states n))) [
        | inr b ↦ rw b (omega (arith, rest))
        | inl b ↦ elim (Bool-cases (small (states n))) [
          | inl s ↦ rw (b, s) (omega (arith, rest))
          | inr s ↦ elim (ℕ_discrete i n) [
            | no other ↦ absurd (false-true (sym s ∙ others n (omega arith) other b))
            | yes last ↦
                let same = tally_below n states (λ j jb. others j (omega arith) (omega arith)) in
                rw (b, s) (omega (arith, same))
          ]
        ]
      ]

  -- A thread that satisfies only the weaker test makes a difference of one.
  tally_one_more :
      (n i : ℕ) (states : ℕ → A)
      → i < n
      → big (states i) ≡ true
      → small (states i) ≡ false
      → tally small n states + 1 ≤ tally big n states
  unfolding tally
  tally_one_more zero i states below b s = absurd (omega arith)
  tally_one_more (suc n) i states below b s = elim (dec_lt i n) [
    | yes earlier ↦ omega (arith, as_one_imp (states n), tally_one_more n i states earlier b s)
    | no last ↦
        let same : i ≡ n = omega arith in
        let b' = subst (λ k. big (states k) ≡ true) same b in
        let s' = subst (λ k. small (states k) ≡ false) same s in
        rw (b', s') (omega (arith, tally-imp n states))
  ]

  -- Two such threads make a difference of two.
  pub tally_two_more :
      (n i j : ℕ) (states : ℕ → A)
      → i ≢ j
      → i < n
      → big (states i) ≡ true
      → small (states i) ≡ false
      → j < n
      → big (states j) ≡ true
      → small (states j) ≡ false
      → tally small n states + 2 ≤ tally big n states
  unfolding tally
  tally_two_more zero i j states other below b s below' b' s' = absurd (omega arith)
  tally_two_more (suc n) i j states other below b s below' b' s' = elim (dec_lt i n) [
    | yes earlier ↦ elim (dec_lt j n) [
      | yes earlier' ↦ omega (
        arith,
        as_one_imp (states n),
        tally_two_more n i j states other earlier b s earlier' b' s',
      )
      | no last ↦
          let same : j ≡ n = omega arith in
          let bn = subst (λ k. big (states k) ≡ true) same b' in
          let sn = subst (λ k. small (states k) ≡ false) same s' in
          rw (bn, sn) (omega (arith, tally_one_more n i states earlier b s))
    ]
    | no last ↦
        let same : i ≡ n = omega arith in
        let bn = subst (λ k. big (states k) ≡ true) same b in
        let sn = subst (λ k. small (states k) ≡ false) same s in
        let ne : j ≢ n = λ e. other (same ∙ sym e) in
        rw (bn, sn) (omega (arith, tally_one_more n j states (omega arith) b' s'))
  ]
