-- ===== src/Common/TraceMap/Marks.antt =====
-- What marking a word and flipping the mark state do to the traced words.
use Prim.Native.Nat.{ℕ, zero, suc, bit_xor, ◌<◌, ◌≤◌}
use mathlib.Core.Path.{◌≡◌, refl, sym, ap, ◌∙◌}
use mathlib.Core.Logic.{◌≢◌, ◌↔◌, inl, inr}
use mathlib.Core.Bool.{true, false}
use mathlib.Core.Option.{some}
use native.Mathlib.Omega.{arith}
use native.Mathlib.Decide.{dec_lt}
use immix_rust.Prelude.{
  length, get_elem?, set, replicate, ok, Option-cases, Bool-cases, get_elem?-set_self,
  get_elem?-set_ne, length-set, get_elem?-replicate, length-replicate, get_elem?-none,
}
use immix_rust.Common.SafeAddressMap.{SafeAddressMap, normalized_index}
use immix_rust.Common.SafeAddressMap
use immix_rust.Common.TraceMap.{
  TraceMap, new, flip_mark_state, is_untraced_and_valid, mark_as_traced,
}

-- The word of `p` is traced; it is another word than that of `q`.
abbrev pub IsTraced : TraceMap → ℕ → Type 0
IsTraced t p = SafeAddressMap.get t.map p ≡ some t.mark_state

abbrev pub cell : TraceMap → ℕ → ℕ
cell t p = normalized_index t.map p

-- Only the two values that `flip_mark_state` alternates between occur.
pub record IsBinary (t : TraceMap) : Type 0 where
  pub state : t.mark_state ≤ 1
  pub bytes : (p v : ℕ) → SafeAddressMap.get t.map p ≡ some v → v ≤ 1

pub is_untraced_and_valid_iff :
    (t : TraceMap) (p : ℕ)
    → (is_untraced_and_valid t p ≡ true)
      ↔ ((v : ℕ) × (SafeAddressMap.get t.map p ≡ some v) × (v ≢ t.mark_state))
unfolding is_untraced_and_valid
is_untraced_and_valid_iff t p = elim (Option-cases (SafeAddressMap.get t.map p)) [
  | inl outside ↦ (λ h. absurd (ground arith), λ found. absurd (ground arith))
  | inr (v, e) ↦ (λ h. (v, e, ground arith), λ found. ground arith)
]

-- What marking the word of `p` changes.
pub record MarkedWord (t u : TraceMap) (p : ℕ) : Type 0 where
  pub state : u.mark_state ≡ t.mark_state
  pub offset : u.map.offset ≡ t.map.offset
  pub size : length u.map.addresses ≡ length t.map.addresses
  pub here : (q : ℕ) → cell t q ≡ cell t p → IsTraced u q
  pub others :
      (q : ℕ) → cell t q ≢ cell t p → SafeAddressMap.get u.map q ≡ SafeAddressMap.get t.map q

-- For a pointer into the space `mark_as_traced` does not panic; all pointers to the same word are
-- traced then, and every other word keeps its byte.
pub mark_as_traced-MarkedWord :
    (t : TraceMap) (p : ℕ)
    → cell t p < length t.map.addresses
    → (u : TraceMap) × (mark_as_traced t p ≡ ok u) × MarkedWord t u p
unfolding mark_as_traced SafeAddressMap.get
mark_as_traced-MarkedWord t p h = (
  record t { map = record t.map { addresses = set t.map.addresses (cell t p) t.mark_state } },
  ground arith,
  record {
    state = refl;
    offset = refl;
    size = length-set t.map.addresses (cell t p) t.mark_state;
    here = λ q e. rw e (get_elem?-set_self t.map.addresses (cell t p) t.mark_state h);
    others = λ q ne.
        get_elem?-set_ne t.map.addresses (cell t p) (cell t q) t.mark_state (λ e. ne (sym e));
  },
)

flipped : (s v : ℕ) → s ≤ 1 → v ≤ 1 → (v ≢ bit_xor s 1) ↔ (v ≡ s)
flipped zero zero hs hv = (λ _. refl, λ _. omega arith)
flipped zero (suc zero) hs hv = (λ ne. absurd (ne refl), λ e. absurd (omega arith))
flipped (suc zero) zero hs hv = (λ ne. absurd (ne refl), λ e. absurd (omega arith))
flipped (suc zero) (suc zero) hs hv = (λ _. refl, λ _. omega arith)
flipped (suc (suc s)) v hs hv = absurd (omega arith)
flipped zero (suc (suc v)) hs hv = absurd (omega arith)
flipped (suc zero) (suc (suc v)) hs hv = absurd (omega arith)

flipped_eq : (s v : ℕ) → s ≤ 1 → v ≤ 1 → (v ≡ bit_xor s 1) ↔ (v ≢ s)
flipped_eq zero zero hs hv = (λ e. absurd (omega arith), λ ne. absurd (ne refl))
flipped_eq zero (suc zero) hs hv = (λ _. omega arith, λ _. refl)
flipped_eq (suc zero) zero hs hv = (λ _. omega arith, λ _. refl)
flipped_eq (suc zero) (suc zero) hs hv = (λ e. absurd (omega arith), λ ne. absurd (ne refl))
flipped_eq (suc (suc s)) v hs hv = absurd (omega arith)
flipped_eq zero (suc (suc v)) hs hv = absurd (omega arith)
flipped_eq (suc zero) (suc (suc v)) hs hv = absurd (omega arith)

-- If the mark state and the bytes are 0 or 1, flipping the mark state swaps the traced and the
-- untraced words: what the last collection did not visit counts as visited in the next one.
pub flip-swaps :
    (t : TraceMap) (p : ℕ)
    → IsBinary t
    → ((is_untraced_and_valid (flip_mark_state t) p ≡ true) ↔ IsTraced t p)
      × (IsTraced (flip_mark_state t) p ↔ (is_untraced_and_valid t p ≡ true))
unfolding flip_mark_state
flip-swaps t p b =
    let untraced = is_untraced_and_valid_iff t p in
    let untraced' = is_untraced_and_valid_iff (flip_mark_state t) p in
    (
      (
        λ h.
            let (v, e, ne) = untraced'.0 h in
            e ∙ ap some ((flipped t.mark_state v b.state (b.bytes p v e)).0 ne),
        λ e.
            untraced'.1
              (t.mark_state, e, (flipped t.mark_state t.mark_state b.state b.state).1 refl),
      ),
      (
        λ e. untraced.1 (
          bit_xor t.mark_state 1,
          e,
          (flipped_eq t.mark_state (bit_xor t.mark_state 1) b.state (b.bytes p _ e)).0 refl,
        ),
        λ h.
            let (v, e, ne) = untraced.0 h in
            e ∙ ap some ((flipped_eq t.mark_state v b.state (b.bytes p v e)).1 ne),
      ),
    )

-- A cell of a table of zeros holds 0, if it is there.
zero_cell : (n i v : ℕ) → get_elem? (replicate n 0) i ≡ some v → v ≡ 0
zero_cell n i v e = elim (dec_lt i n) [
  | yes lt ↦ ground (arith, get_elem?-replicate {A = ℕ} n i 0 lt)
  | no past ↦ ground (arith, get_elem?-none {A = ℕ} (replicate n 0) i, length-replicate {A = ℕ} n 0)
]

-- In a new map no pointer is untraced and valid, whatever the space.
pub new-nothing_untraced : (start end p : ℕ) → is_untraced_and_valid (new start end) p ≡ false
unfolding new SafeAddressMap.get
new-nothing_untraced start end p = elim (Bool-cases (is_untraced_and_valid (new start end) p)) [
  | inr no_word ↦ no_word
  | inl word ↦
      let (v, e, ne) = (is_untraced_and_valid_iff (new start end) p).0 word in
      absurd (ne (zero_cell _ (cell (new start end) p) v e))
]
