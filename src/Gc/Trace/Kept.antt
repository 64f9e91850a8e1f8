-- ===== src/Gc/Trace/Kept.antt =====
-- src/heap/gc/multi_thread_trace.rs: what the workers leave as it is in the trace map and in the line
-- mark table.
use Prim.Native.Nat.{ℕ, ◌+◌, ◌≤◌}
use mathlib.Core.Path.{◌≡◌, refl, sym, ap, subst, ◌∙◌}
use mathlib.Core.Logic.{inl, inr}
use mathlib.Core.List.{List}
use mathlib.Core.Option.{some_inj}
use native.Mathlib.Omega.{arith}
use native.Mathlib.Decide.{ℕ_discrete}
use immix_rust.Prelude.{length, length-set, ok, >>=-eq-ok, ltb, Bool-cases, if◌then◌else◌}
use immix_rust.Common.Address.{Address, ObjectReference, wrapping_sub}
use immix_rust.Common.TraceMap.{TraceMap}
use immix_rust.Common.TraceMap.Marks.{MarkedWord, cell, IsBinary}
use immix_rust.Crossbeam.Batch.{BatchInjector}
use immix_rust.Immix.LineMark.{
  LineMark, live, conserv_live, LineMarkTable, set, mark_line, mark_line_live,
}
use immix_rust.Gc.Trace.{Workers, by, Reach, start, later}
use immix_rust.Gc.Trace.Effects.{Move-map, Move-table}

MarkedWord-IsBinary : (t u : TraceMap) (p : ℕ) → MarkedWord t u p → IsBinary t → IsBinary u
MarkedWord-IsBinary t u p w b = record {
  state = subst (λ s. s ≤ 1) (sym w.state) b.state;
  bytes = λ q v e. elim (ℕ_discrete (cell t q) (cell t p)) [
    | yes same ↦ subst (λ s. s ≤ 1) (sym w.state ∙ some_inj.0 (sym (w.here q same) ∙ e)) b.state
    | no other ↦ b.bytes q v (sym (w.others q other) ∙ e)
  ];
}

set-length :
    (t u : LineMarkTable) (i : ℕ) (mark : LineMark)
    → set t i mark ≡ ok u
    → length u.cells ≡ length t.cells
unfolding set
set-length t u i mark run = ground (arith, length-set t.cells i mark)

mark_line-length :
    (t u : LineMarkTable) (i : ℕ) → mark_line t i ≡ ok u → length u.cells ≡ length t.cells
unfolding mark_line
mark_line-length t u i run =
    let (t', first, rest) = >>=-eq-ok (set t i live) _ run in
    second t' rest ∙ set-length t t' i live first
  where
    second :
        (t' : LineMarkTable)
        → (if ltb i (wrapping_sub t.len 1) then set t' (i + 1) conserv_live else ok t') ≡ ok u
        → length u.cells ≡ length t'.cells
    second t' rest = elim (Bool-cases (ltb i (wrapping_sub t.len 1))) [
      | inl more ↦ set-length t' u (i + 1) conserv_live (rw more at rest)
      | inr last ↦ ground (arith, rest)
    ]

mark_line_live-length :
    (t u : LineMarkTable) (o : Address)
    → mark_line_live t o ≡ ok u
    → length u.cells ≡ length t.cells
unfolding mark_line_live
mark_line_live-length t u o run = mark_line-length t u _ run

module _ (I : BatchInjector ObjectReference) (alloc_map : List ℕ) (space_start space_end : Address)
    (word : Address → ℕ) (cpus : ℕ) {v : Workers I} where
  pub Reach-IsBinary :
      {w : Workers I}
      → Reach I alloc_map space_start space_end word cpus v w
      → IsBinary v.shared.trace_map
      → IsBinary w.shared.trace_map
  Reach-IsBinary start b = b
  Reach-IsBinary (later r (by i below move)) b =
      elim (Move-map I alloc_map space_start space_end word v.shared.trace_map move) [
        | inl same ↦ subst IsBinary (sym same.0) (Reach-IsBinary r b)
        | inr (o, own, at, w) ↦ MarkedWord-IsBinary _ _ o w (Reach-IsBinary r b)
      ]

  pub Reach-length :
      {w : Workers I}
      → Reach I alloc_map space_start space_end word cpus v w
      → length w.shared.line_mark_table.cells ≡ length v.shared.line_mark_table.cells
  Reach-length start = refl
  Reach-length (later r (by i below move)) =
      elim (Move-table I alloc_map space_start space_end word v.shared.trace_map move) [
        | inl same ↦ ap (λ (t : LineMarkTable). length t.cells) same ∙ Reach-length r
        | inr (o, own, at, run) ↦ mark_line_live-length _ _ o run ∙ Reach-length r
      ]

  pub Reach-map_length :
      {w : Workers I}
      → Reach I alloc_map space_start space_end word cpus v w
      → length w.shared.trace_map.map.addresses ≡ length v.shared.trace_map.map.addresses
  Reach-map_length start = refl
  Reach-map_length (later r (by i below move)) =
      elim (Move-map I alloc_map space_start space_end word v.shared.trace_map move) [
        | inl same ↦ ap (λ (t : TraceMap). length t.map.addresses) same.0 ∙ Reach-map_length r
        | inr (o, own, at, marked) ↦ marked.size ∙ Reach-map_length r
      ]
