-- ===== src/Immix/Mutator/Holes.antt =====
-- The lines of a hole after a mutator has taken it.
use Prim.Native.Nat.{ℕ, zero, suc, ◌+◌, ◌≤◌, ◌<◌}
use mathlib.Core.Path.{◌≡◌, refl, ◌∙◌}
use mathlib.Core.List.{List}
use mathlib.Core.Option.{some}
use native.Mathlib.Omega.{arith}
use native.Mathlib.Decide.{ℕ_discrete}
use immix_rust.Prelude.{
  length, get_elem?, set, length-set, get_elem?-set_self, get_elem?-set_ne, ok, if◌then◌else◌,
}
use immix_rust.Immix.LineMark.{LineMark, fresh_alloc, LineMarkTableSlice}
use immix_rust.Immix.Space.Sweep.Lines.{within}
use immix_rust.Immix.Mutator.{mark_fresh}

-- `cells'` is `cells` with the `rounds` cells from `from` on marked as fresh.
pub record Freshened (from rounds : ℕ) (cells cells' : List LineMark) : Type 0 where
  pub size : length cells' ≡ length cells
  pub at :
      (j : ℕ)
      → get_elem? cells' j ≡ (if within from rounds j then some fresh_alloc else get_elem? cells j)

Freshened-suc :
    (from rounds : ℕ) (cells cells' : List LineMark)
    → from < length cells
    → Freshened (from + 1) rounds (set cells from fresh_alloc) cells'
    → Freshened from (suc rounds) cells cells'
Freshened-suc from rounds cells cells' lt f = record {
  size = f.size ∙ length-set cells from fresh_alloc;
  at = λ j. elim (ℕ_discrete from j) [
    | yes same ↦ ground (arith, f.at j, get_elem?-set_self cells from fresh_alloc lt)
    | no ne ↦ ground (arith, f.at j, get_elem?-set_ne cells from j fresh_alloc ne)
  ];
}

mark_fresh-suc :
    (rounds : ℕ) (cells : List LineMark) (s : LineMarkTableSlice) (line : ℕ)
    → s.base + line < length cells
    → mark_fresh (suc rounds) cells s line
      ≡ mark_fresh rounds (set cells (s.base + line) fresh_alloc) s (line + 1)
unfolding mark_fresh
mark_fresh-suc rounds cells s line lt = ground arith

pub mark_fresh-Freshened :
    (rounds : ℕ) (cells : List LineMark) (s : LineMarkTableSlice) (line : ℕ)
    → s.base + line + rounds ≤ length cells
    → (cells' : List LineMark) × (mark_fresh rounds cells s line ≡ ok cells')
      × Freshened (s.base + line) rounds cells cells'
unfolding mark_fresh
mark_fresh-Freshened zero cells s line h =
    (cells, refl, record { size = refl; at = λ j. ground arith })
mark_fresh-Freshened (suc rounds) cells s line h =
    let lt : s.base + line < length cells = omega arith in
    let c = set cells (s.base + line) fresh_alloc in
    let (cells', run, f) =
      mark_fresh-Freshened rounds c s (line + 1)
        (omega (arith, length-set cells (s.base + line) fresh_alloc)) in
    let next : s.base + (line + 1) ≡ s.base + line + 1 = omega arith in
    (
      cells',
      mark_fresh-suc rounds cells s line lt ∙ run,
      Freshened-suc (s.base + line) rounds cells cells' lt (rw next at f),
    )
