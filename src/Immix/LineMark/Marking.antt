-- ===== src/Immix/LineMark/Marking.antt =====
-- What marking an object does to the lines.
use Prim.Native.Nat.{ℕ, ◌+◌, ◌-◌, ◌*◌, ◌/◌, ◌%◌, ◌≤◌, ◌<◌}
use mathlib.Core.Path.{◌≡◌, refl, sym, ◌∙◌}
use mathlib.Core.Logic.{◌≢◌}
use mathlib.Core.Bool.{true}
use mathlib.Core.List.{List}
use mathlib.Core.Option.{some}
use native.Mathlib.Omega.{arith}
use native.Mathlib.Decide.{dec_lt, ℕ_discrete}
use immix_rust.Prelude.{
  length, get_elem?, set, length-set, get_elem?-set_self, get_elem?-set_ne, get_elem?-lt, ok,
}
use immix_rust.Common.Address.{Address, usize_mod}
use immix_rust.Immix.Sizes.{bytes_in_line}
use immix_rust.Immix.LineMark.{
  LineMark, live, conserv_live, is_live, LineMarkTable, mark_line, mark_line_live,
}

-- The table has a cell for each line of a space that does not reach the top of memory.
pub record IsTable (t : LineMarkTable) : Type 0 where
  pub sized : length t.cells ≡ t.len
  pub low : t.space_start + t.len * bytes_in_line < usize_mod

-- The address is on a line of the table.
abbrev pub OnTable : LineMarkTable → Address → Type 0
OnTable t addr = (t.space_start ≤ addr) × (addr < t.space_start + t.len * bytes_in_line)

abbrev pub line_of : LineMarkTable → Address → ℕ
line_of t addr = (addr - t.space_start) / bytes_in_line

-- The line is one that `sweep` does not free.
abbrev pub IsLiveAt : List LineMark → ℕ → Type 0
IsLiveAt cells i = (m : LineMark) × (get_elem? cells i ≡ some m) × (is_live m ≡ true)

-- What changes from `t` to `u` when the object on line `i` is marked.
pub record Marked (t u : LineMarkTable) (i : ℕ) : Type 0 where
  pub start : u.space_start ≡ t.space_start
  pub len : u.len ≡ t.len
  pub sized : length u.cells ≡ length t.cells
  pub line : get_elem? u.cells i ≡ some live
  pub next : i + 1 < t.len → get_elem? u.cells (i + 1) ≡ some conserv_live
  pub others : (j : ℕ) → j ≢ i → j ≢ i + 1 → get_elem? u.cells j ≡ get_elem? t.cells j

module _ (t : LineMarkTable) (valid : IsTable t) (i : ℕ) (below : i < t.len) where
  mark_line_more : i + 1 < t.len → (u : LineMarkTable) × (mark_line t i ≡ ok u) × Marked t u i
  unfolding mark_line
  mark_line_more more =
      let cells = set t.cells i live in
      let size = length-set t.cells i live in
      (
        record t { cells = set cells (i + 1) conserv_live },
        ground (arith, valid.sized, valid.low, size),
        record {
          start = refl;
          len = refl;
          sized = length-set cells (i + 1) conserv_live ∙ size;
          line =
              get_elem?-set_ne cells (i + 1) i conserv_live (omega arith)
              ∙ get_elem?-set_self t.cells i live (omega (arith, valid.sized));
          next =
              λ _. get_elem?-set_self cells (i + 1) conserv_live (omega (arith, valid.sized, size));
          others = λ j ne ne'.
              get_elem?-set_ne cells (i + 1) j conserv_live (λ e. ne' (sym e))
              ∙ get_elem?-set_ne t.cells i j live (λ e. ne (sym e));
        },
      )

  mark_line_last : ¬ (i + 1 < t.len) → (u : LineMarkTable) × (mark_line t i ≡ ok u) × Marked t u i
  unfolding mark_line
  mark_line_last last = (
    record t { cells = set t.cells i live },
    ground (arith, valid.sized, valid.low),
    record {
      start = refl;
      len = refl;
      sized = length-set t.cells i live;
      line = get_elem?-set_self t.cells i live (omega (arith, valid.sized));
      next = λ h. absurd (last h);
      others = λ j ne _. get_elem?-set_ne t.cells i j live (λ e. ne (sym e));
    },
  )

  pub mark_line-Marked : (u : LineMarkTable) × (mark_line t i ≡ ok u) × Marked t u i
  mark_line-Marked = elim (dec_lt (i + 1) t.len) [
    | yes more ↦ mark_line_more more
    | no last ↦ mark_line_last last
  ]

-- Marking keeps the table well formed.
pub Marked-IsTable : {t u : LineMarkTable} {i : ℕ} → Marked t u i → IsTable t → IsTable u
Marked-IsTable m valid = ground (arith, m.sized, m.len, m.start, valid.sized, valid.low)

-- No line stops being live.
pub Marked-IsLiveAt :
    {t u : LineMarkTable} {i : ℕ}
    → IsTable t
    → i < t.len
    → Marked t u i
    → (j : ℕ) → IsLiveAt t.cells j
    → IsLiveAt u.cells j
Marked-IsLiveAt {t} {u} {i} valid below m j (a, e, h) = elim (ℕ_discrete j i) [
  | yes here ↦ (live, rw here m.line, refl)
  | no ne ↦ elim (ℕ_discrete j (i + 1)) [
    | yes next ↦ (conserv_live, rw next (m.next (omega (arith, get_elem?-lt t.cells j e))), refl)
    | no ne' ↦ (a, m.others j ne ne' ∙ e, h)
  ]
]

-- For an address on the table `mark_line_live` writes inside the allocation only; it makes the line
-- of the address live, the next one, if there is one, conservatively live, and no other line changes.
pub mark_line_live-Marked :
    (t : LineMarkTable) (addr : Address)
    → IsTable t
    → OnTable t addr
    → (u : LineMarkTable) × (mark_line_live t addr ≡ ok u) × Marked t u (line_of t addr)
unfolding mark_line_live
mark_line_live-Marked t addr valid on =
    rw
      (let e : (addr + usize_mod - t.space_start) % usize_mod / 256 ≡ line_of t addr =
          omega (arith, valid.low) in
        e)
      (mark_line-Marked t valid (line_of t addr) (omega arith))
