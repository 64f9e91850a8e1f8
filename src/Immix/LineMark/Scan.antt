-- ===== src/Immix/LineMark/Scan.antt =====
-- The two scans of a slice find the ends of a run of free lines.
use Prim.Native.Nat.{ℕ, zero, suc, ◌+◌, ◌-◌, ◌≤◌, ◌<◌}
use mathlib.Core.Path.{◌≡◌, ap, subst}
use mathlib.Core.Logic.{◌≢◌, ◌⊎◌, inl, inr}
use mathlib.Core.Bool.{true, false}
use mathlib.Core.List.{List}
use mathlib.Core.Option.{Option, none, some}
use native.Mathlib.Omega.{arith}
use native.Mathlib.Decide.{dec_lt, ℕ_discrete}
use immix_rust.Prelude.{length, get_elem?, get_elem?-some, ok, Bool-cases}
use immix_rust.Immix.LineMark.{
  LineMark, free, is_free, LineMarkTableSlice, available_loop, get_next_available_line,
  unavailable_loop, get_next_unavailable_line,
}

-- The line `i` of the slice has a mark that is free, or one that is not.
abbrev pub IsFreeAt : List LineMark → LineMarkTableSlice → ℕ → Type 0
IsFreeAt cells s i = get_elem? cells (s.base + i) ≡ some free

abbrev pub IsTakenAt : List LineMark → LineMarkTableSlice → ℕ → Type 0
IsTakenAt cells s i = (m : LineMark) × (get_elem? cells (s.base + i) ≡ some m) × (m ≢ free)

module _ (cells : List LineMark) (s : LineMarkTableSlice) where
  -- What a search from `i` comes to: the first free line, or no line of the rest is free.
  abbrev pub FirstFree : ℕ → Option ℕ → Type 0
  FirstFree i none = (j : ℕ) → i ≤ j → j < s.len → IsTakenAt cells s j
  FirstFree i (some r) = record {
    from : i ≤ r;
    below : r < s.len;
    here : IsFreeAt cells s r;
    before : (j : ℕ) → i ≤ j → j < r → IsTakenAt cells s j;
  }

  at_or_later :
      {i j : ℕ}
      → IsTakenAt cells s i
      → (i + 1 ≤ j → IsTakenAt cells s j)
      → i ≤ j
      → IsTakenAt cells s j
  at_or_later {i} {j} here later le = elim (ℕ_discrete i j) [
    | yes same ↦ subst (IsTakenAt cells s) same here
    | no other ↦ later (omega arith)
  ]

  FirstFree-extend :
      (i : ℕ) (r : Option ℕ) → IsTakenAt cells s i → FirstFree (i + 1) r → FirstFree i r
  FirstFree-extend i none t f = λ j lo hi. at_or_later t (λ lo'. f j lo' hi) lo
  FirstFree-extend i (some r) t f = record {
    from = omega (arith, f.from);
    below = f.below;
    here = f.here;
    before = λ j lo hi. at_or_later t (λ lo'. f.before j lo' hi) lo;
  }

  -- Where the run of free lines from `i` on ends.
  pub record RunEnd (i r : ℕ) : Type 0 where
    pub from : i ≤ r
    pub below : r ≤ s.len
    pub run : (j : ℕ) → i ≤ j → j < r → IsFreeAt cells s j
    pub stop : (r ≡ s.len) ⊎ IsTakenAt cells s r

  free_or_later :
      {i j : ℕ} → IsFreeAt cells s i → (i + 1 ≤ j → IsFreeAt cells s j) → i ≤ j → IsFreeAt cells s j
  free_or_later {i} {j} here later le = elim (ℕ_discrete i j) [
    | yes same ↦ subst (IsFreeAt cells s) same here
    | no other ↦ later (omega arith)
  ]

is_free→eq : (m : LineMark) → is_free m ≡ true → m ≡ free
is_free→eq m h = ground arith

not_free→ne : (m : LineMark) → is_free m ≡ false → m ≢ free
not_free→ne m h = ground arith

module _ (cells : List LineMark) (s : LineMarkTableSlice)
    (inside : s.base + s.len ≤ length cells) where
  available_loop_lem :
      (fuel i : ℕ)
      → s.len ≤ i + fuel
      → (r : Option ℕ) × (available_loop fuel cells s i ≡ ok r) × FirstFree cells s i r
  unfolding available_loop
  available_loop_lem zero i h = (none, ground arith, λ j lo hi. absurd (omega arith))
  available_loop_lem (suc fuel) i h = elim (dec_lt i s.len) [
    | no past ↦ (none, ground arith, λ j lo hi. absurd (omega arith))
    | yes lt ↦
        let (m, e) = get_elem?-some cells (s.base + i) (omega arith) in
        elim (Bool-cases (is_free m)) [
          | inl fr ↦ (
            some i,
            ground arith,
            record {
              from = omega arith;
              below = lt;
              here = rw e (ap some (is_free→eq m fr));
              before = λ j lo hi. absurd (omega arith);
            },
          )
          | inr tk ↦
              let (r, run, first) = available_loop_lem fuel (i + 1) (omega arith) in
              (r, ground arith, FirstFree-extend cells s i r (m, e, not_free→ne m tk) first)
        ]
  ]

  -- On cells that hold the whole slice, the search for an available line reads only inside the
  -- allocation and ends: it returns the first free line from the given one on, or nothing, and then
  -- no line from the given one on is free.
  pub get_next_available_line-FirstFree :
      (cur_line : ℕ)
      → (r : Option ℕ) × (get_next_available_line cells s cur_line ≡ ok r)
        × FirstFree cells s cur_line r
  unfolding get_next_available_line
  get_next_available_line-FirstFree cur_line =
      available_loop_lem (s.len - cur_line) cur_line (omega arith)

  unavailable_loop_lem :
      (fuel i : ℕ)
      → s.len ≤ i + fuel
      → i ≤ s.len
      → (r : ℕ) × (unavailable_loop fuel cells s i ≡ ok r) × RunEnd cells s i r
  unfolding unavailable_loop
  unavailable_loop_lem zero i h le = (
    i,
    ground arith,
    record {
      from = omega arith;
      below = le;
      run = λ j lo hi. absurd (omega arith);
      stop = inl (omega arith);
    },
  )
  unavailable_loop_lem (suc fuel) i h le = elim (dec_lt i s.len) [
    | no past ↦ (
      i,
      ground arith,
      record {
        from = omega arith;
        below = le;
        run = λ j lo hi. absurd (omega arith);
        stop = inl (omega arith);
      },
    )
    | yes lt ↦
        let (m, e) = get_elem?-some cells (s.base + i) (omega arith) in
        elim (Bool-cases (is_free m)) [
          | inl fr ↦
              let (r, ends, rest) = unavailable_loop_lem fuel (i + 1) (omega arith) (omega arith) in
              (
                r,
                ground arith,
                record {
                  from = omega (arith, rest.from);
                  below = rest.below;
                  run = λ j lo hi.
                      free_or_later cells s (rw e (ap some (is_free→eq m fr)))
                        (λ lo'. rest.run j lo' hi) lo;
                  stop = rest.stop;
                },
              )
          | inr tk ↦ (
            i,
            ground arith,
            record {
              from = omega arith;
              below = le;
              run = λ j lo hi. absurd (omega arith);
              stop = inr (m, e, not_free→ne m tk);
            },
          )
        ]
  ]

  -- From a line of the slice or its end, the search for an unavailable line reads only inside the
  -- allocation and ends: all lines from the given one up to the result are free, and the result is
  -- the end of the slice or a line that is not free.
  pub get_next_unavailable_line-RunEnd :
      (cur_line : ℕ)
      → cur_line ≤ s.len
      → (r : ℕ) × (get_next_unavailable_line cells s cur_line ≡ ok r) × RunEnd cells s cur_line r
  unfolding get_next_unavailable_line
  get_next_unavailable_line-RunEnd cur_line h =
      unavailable_loop_lem (s.len - cur_line) cur_line (omega arith) h
