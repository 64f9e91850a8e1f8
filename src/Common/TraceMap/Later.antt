-- ===== src/Common/TraceMap/Later.antt =====
-- src/common/address_map.rs: what was traced stays traced when one more word is marked.
use Prim.Native.Nat.{ℕ}
use mathlib.Core.Path.{◌≡◌, sym, ap, ap₂, ◌∙◌}
use mathlib.Core.Logic.{◌⊎◌, inl, inr, ◌≢◌}
use mathlib.Core.Bool.{Bool, true, false, not}
use mathlib.Core.Option.{Option, none, some}
use native.Mathlib.Decide.{ℕ_discrete}
use immix_rust.Prelude.{◌==◌}
use immix_rust.Common.SafeAddressMap.{normalized_index}
use immix_rust.Common.TraceMap.{TraceMap, is_untraced_and_valid}
use immix_rust.Common.TraceMap.Marks.{IsTraced, cell, MarkedWord, is_untraced_and_valid_iff}

-- The word of a pointer depends on where the space starts, and on nothing else.
pub cell-offset : (t u : TraceMap) (p : ℕ) → u.map.offset ≡ t.map.offset → cell u p ≡ cell t p
unfolding normalized_index
cell-offset t u p e = rw e

abbrev untraced_byte : Option ℕ → ℕ → Bool
untraced_byte byte state = elim byte [ some v ↦ not (v == state) | none ↦ false ]

module _ {t u : TraceMap} {p : ℕ} (m : MarkedWord t u p) (q : ℕ) where
  same_byte : cell t q ≢ cell t p → is_untraced_and_valid u q ≡ is_untraced_and_valid t q
  unfolding is_untraced_and_valid
  same_byte other = ap₂ untraced_byte (m.others q other) m.state

  traced_not_untraced : IsTraced u q → is_untraced_and_valid u q ≡ true → ⊥
  traced_not_untraced h e =
      let (v, found, ne) = (is_untraced_and_valid_iff u q).0 e in ne (some_inj (sym found ∙ h))
    where
      some_inj : {a b : ℕ} → some a ≡ some b → a ≡ b
      some_inj e = cc

  pub MarkedWord-untraced : is_untraced_and_valid u q ≡ true → is_untraced_and_valid t q ≡ true
  MarkedWord-untraced e = elim (ℕ_discrete (cell t q) (cell t p)) [
    | yes same ↦ absurd (traced_not_untraced (m.here q same) e)
    | no other ↦ sym (same_byte other) ∙ e
  ]

  pub MarkedWord-visited :
      is_untraced_and_valid u q ≡ false
      → (cell t q ≡ cell t p) ⊎ (is_untraced_and_valid t q ≡ false)
  MarkedWord-visited e = elim (ℕ_discrete (cell t q) (cell t p)) [
    | yes same ↦ inl same
    | no other ↦ inr (sym (same_byte other) ∙ e)
  ]

  pub MarkedWord-IsTraced : IsTraced t q → IsTraced u q
  MarkedWord-IsTraced h = elim (ℕ_discrete (cell t q) (cell t p)) [
    | yes same ↦ m.here q same
    | no other ↦ m.others q other ∙ h ∙ ap some (sym m.state)
  ]
