-- ===== src/Immix/Space/Sweep/Lines.antt =====
-- Sweeping the lines of one block.
use Prim.Native.Nat.{ℕ, zero, suc, ◌+◌, ◌≤◌}
use mathlib.Core.Path.{◌≡◌, refl, ap, ap₂, ◌∙◌}
use mathlib.Core.Logic.{◌≢◌}
use mathlib.Core.Bool.{Bool, true, false, not, ◌&&◌, ◌||◌}
use mathlib.Core.List.{List}
use mathlib.Core.Option
use mathlib.Core.Option.{Option, none, some}
use native.Mathlib.Omega.{arith}
use native.Mathlib.Decide.{ℕ_discrete}
use immix_rust.Prelude.{
  length, get_elem?, set, length-set, get_elem?-set_self, get_elem?-set_ne, get_elem?-some,
  get_elem?-lt, ok, ltb, leb, if◌then◌else◌,
}
use immix_rust.Immix.LineMark.{LineMark, free, is_live, LineMarkTableSlice}
use immix_rust.Immix.Space.Sweep.{sweep_lines}

-- What sweeping makes of a mark.
abbrev pub swept : LineMark → LineMark
swept m = if is_live m then m else free

-- The cell `j` is one of the `rounds` cells from `from` on.
abbrev pub within : ℕ → ℕ → ℕ → Bool
within from rounds j = leb from j && ltb j (from + rounds)

-- The cell holds a mark that does not keep its line.
abbrev pub is_dead : Option LineMark → Bool
is_dead none = false
is_dead (some m) = not (is_live m)

-- One of the `rounds` cells from `from` on does not keep its line.
abbrev pub any_dead : ℕ → List LineMark → ℕ → Bool
any_dead zero cells from = false
any_dead (suc rounds) cells from =
    is_dead (get_elem? cells from) || any_dead rounds cells (from + 1)

-- `cells'` is `cells` with the cells that `covered` names swept, and the others as they were.
pub record Swept (covered : ℕ → Bool) (cells cells' : List LineMark) : Type 0 where
  pub size : length cells' ≡ length cells
  pub at :
      (j : ℕ)
      → get_elem? cells' j
        ≡ (if covered j then Option.map swept (get_elem? cells j) else get_elem? cells j)

-- The cells after one round of the loop at the cell `k`, which holds `m`.
abbrev sweep_cell : List LineMark → ℕ → LineMark → List LineMark
sweep_cell cells k m = if is_live m then cells else set cells k free

length-sweep_cell :
    (cells : List LineMark) (k : ℕ) (m : LineMark) → length (sweep_cell cells k m) ≡ length cells
length-sweep_cell cells k m = ground (arith, length-set cells k free)

sweep_cell_self :
    (cells : List LineMark) (k : ℕ) (m : LineMark)
    → get_elem? cells k ≡ some m
    → get_elem? (sweep_cell cells k m) k ≡ some (swept m)
sweep_cell_self cells k m e =
    ground (arith, get_elem?-set_self cells k free, get_elem?-lt cells k e)

sweep_cell_ne :
    (cells : List LineMark) (k j : ℕ) (m : LineMark)
    → k ≢ j
    → get_elem? (sweep_cell cells k m) j ≡ get_elem? cells j
sweep_cell_ne cells k j m ne = ground (arith, get_elem?-set_ne cells k j free ne)

pub any_dead-cong :
    (rounds from : ℕ) (cells cells' : List LineMark)
    → ((j : ℕ) → from ≤ j → is_dead (get_elem? cells' j) ≡ is_dead (get_elem? cells j))
    → any_dead rounds cells' from ≡ any_dead rounds cells from
any_dead-cong zero from cells cells' h = refl
any_dead-cong (suc rounds) from cells cells' h =
    ap₂ ◌||◌ (h from (omega arith))
      (any_dead-cong rounds (from + 1) cells cells' (λ j le. h j (omega arith)))

-- The rest of the loop after the round at `k` has swept `cells` to `cells'`.
Swept-sweep_cell :
    (rounds k : ℕ) (cells cells' : List LineMark) (m : LineMark)
    → get_elem? cells k ≡ some m
    → Swept (within (k + 1) rounds) (sweep_cell cells k m) cells'
    → Swept (within k (suc rounds)) cells cells'
Swept-sweep_cell rounds k cells cells' m e w = record {
  size = w.size ∙ length-sweep_cell cells k m;
  at = λ j. elim (ℕ_discrete k j) [
    | yes same ↦ ground (arith, w.at j, sweep_cell_self cells k m e)
    | no ne ↦ ground (arith, w.at j, sweep_cell_ne cells k j m ne)
  ];
}

sweep_lines-suc :
    (rounds : ℕ) (s : LineMarkTableSlice) (i : ℕ) (cells : List LineMark) (has : Bool)
    (m : LineMark)
    → get_elem? cells (s.base + i) ≡ some m
    → sweep_lines (suc rounds) s i cells has
      ≡ sweep_lines rounds s
          (i + 1)
          (sweep_cell cells (s.base + i) m)
          (if is_live m then has else true)
unfolding sweep_lines
sweep_lines-suc rounds s i cells has m e = ground (arith, get_elem?-lt cells (s.base + i) e)

-- The flag after the round at `k` and the rounds behind it.
flag-suc :
    (rounds k : ℕ) (cells : List LineMark) (has : Bool) (m : LineMark)
    → get_elem? cells k ≡ some m
    → ((if is_live m then has else true) || any_dead rounds (sweep_cell cells k m) (k + 1))
      ≡ (has || any_dead (suc rounds) cells k)
flag-suc rounds k cells has m e = ground (
  arith,
  any_dead-cong rounds (k + 1) cells (sweep_cell cells k m)
      (λ j le. ap is_dead (sweep_cell_ne cells k j m (omega arith))),
)

-- The loop reads and writes only inside the allocation, sweeps the lines from `i` on, and says
-- whether one of them was not live.
pub sweep_lines_lem :
    (rounds : ℕ) (s : LineMarkTableSlice) (i : ℕ) (cells : List LineMark) (has : Bool)
    → s.base + i + rounds ≤ length cells
    → (cells' : List LineMark) × (sweep_lines rounds s i cells has
        ≡ ok (has || any_dead rounds cells (s.base + i), cells'))
      × Swept (within (s.base + i) rounds) cells cells'
unfolding sweep_lines
sweep_lines_lem zero s i cells has h =
    (cells, ground arith, record { size = refl; at = λ j. ground arith })
sweep_lines_lem (suc rounds) s i cells has h =
    let (m, e) = get_elem?-some cells (s.base + i) (omega arith) in
    let c = sweep_cell cells (s.base + i) m in
    let (cells', run, w) =
      sweep_lines_lem rounds s (i + 1) c (if is_live m then has else true)
        (omega (arith, length-sweep_cell cells (s.base + i) m)) in
    let next : s.base + (i + 1) ≡ s.base + i + 1 = omega arith in
    (
      cells',
      sweep_lines-suc rounds s i cells has m e
          ∙ run
          ∙ ap (λ (b : Bool). ok (b, cells'))
              (rw next (flag-suc rounds (s.base + i) cells has m e)),
      Swept-sweep_cell rounds (s.base + i) cells cells' m e (rw next at w),
    )
