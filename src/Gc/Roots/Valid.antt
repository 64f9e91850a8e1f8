-- ===== src/Gc/Roots/Valid.antt =====
-- src/heap/gc/mod.rs: which words `stack_scan` takes for references.
use Prim.Native.Nat.{ℕ, zero, suc, ◌+◌, ◌-◌, ◌*◌, ◌/◌, ◌%◌, ◌≤◌, ◌<◌}
use mathlib.Core.Path.{◌≡◌, refl, sym, ap, ◌∙◌}
use mathlib.Core.Logic.{inl, inr}
use mathlib.Core.Bool.{Bool, false, ◌&&◌}
use mathlib.Core.List.{List, [], ◌∷◌, ◌++◌, append_assoc, append-nil}
use mathlib.Core.Option.{Option, some, none}
use native.Mathlib.Omega.{arith}
use native.Mathlib.Decide.{dec_lt}
use immix_rust.Prelude.{
  ok, length, get_elem?, get_elem?-some, ltb, leb, lt→ltb, if◌then◌else◌, Bool-cases,
}
use immix_rust.Common.Address.{Address, ObjectReference, plus, diff, pointer_size, usize_mod}
use immix_rust.Common.AddressMap
use immix_rust.Crossbeam.{Injector}
use immix_rust.Immix.Block.{ImmixBlock}
use immix_rust.Immix.Space.{ImmixSpace}
use immix_rust.Gc.Roots.{
  starts_object, is_valid_object, push_valid, store_registers, scan_loop, stack_scan,
}

-- The words of the stack from `from` on, `n` of them.
abbrev pub stack_words : (Address → ℕ) → Address → ℕ → List ℕ
stack_words word from zero = []
stack_words word from (suc n) = word from ∷ stack_words word (from + pointer_size) n

module _ (I : Injector ImmixBlock) (s : ImmixSpace I) where
  -- The allocation map has a byte for every address of the space.
  pub record IsMapped : Type 0 where
    pub begins : s.alloc_map.start ≡ s.start
    pub low : s.end < usize_mod
    pub sized : (p : ℕ) → s.start ≤ p → p < s.end → (p - s.start) / 8 < length s.alloc_map.ptr

  abbrev pub marks_object : Option ℕ → Bool
  marks_object (some byte) = starts_object byte
  marks_object none = false

  -- The value points into the space, into a word whose byte says that an object starts there.
  abbrev pub is_object : ℕ → Bool
  is_object value =
      leb s.start value
      && ltb value s.end
      && marks_object (get_elem? s.alloc_map.ptr ((value - s.start) / 8))

  -- Those of the values that are objects.
  abbrev pub objects : List ℕ → List ObjectReference
  objects [] = []
  objects (value ∷ values) = if is_object value then value ∷ objects values else objects values

  module _ (mapped : IsMapped) where
    -- The index that `AddressMap.get` computes.
    pub get-inside :
        (p : ℕ) → s.start ≤ p → p < s.end → AddressMap.index_of s.alloc_map p ≡ (p - s.start) / 8
    unfolding AddressMap.index_of diff
    get-inside p lo hi = omega (arith, mapped.begins, mapped.low)

    is_valid_object_inside :
        (value : ℕ)
        → s.start ≤ value
        → value < s.end
        → is_valid_object value s.start s.end s.alloc_map ≡ ok (is_object value)
    unfolding is_valid_object AddressMap.get
    is_valid_object_inside value lo hi =
        let (byte, e) =
          get_elem?-some s.alloc_map.ptr ((value - s.start) / 8) (mapped.sized value lo hi) in
        let at = get-inside value lo hi in ground (arith, e, at)

    pub is_valid_object_lem :
        (value : ℕ) → is_valid_object value s.start s.end s.alloc_map ≡ ok (is_object value)
    unfolding is_valid_object
    is_valid_object_lem value = elim (dec_lt value s.start) [
      | yes below ↦ ground arith
      | no above ↦ elim (dec_lt value s.end) [
        | yes inside ↦ is_valid_object_inside value (omega arith) inside
        | no past ↦ ground arith
      ]
    ]

    push_valid_lem :
        (ret : List ObjectReference) (value : ℕ)
        → push_valid I s ret value ≡ ok (ret ++ objects (value ∷ []))
    unfolding push_valid
    push_valid_lem ret value = elim (Bool-cases (is_object value)) [
      | inl yes_object ↦ rw (is_valid_object_lem value, yes_object)
      | inr no_object ↦ rw (is_valid_object_lem value, no_object) (ap ok (sym (append-nil ret)))
    ]

    objects-append : (xs ys : List ℕ) → objects (xs ++ ys) ≡ objects xs ++ objects ys
    objects-append [] ys = refl
    objects-append (x ∷ xs) ys = elim (Bool-cases (is_object x)) [
      | inl yes_object ↦ rw yes_object (ap (λ zs. x ∷ zs) (objects-append xs ys))
      | inr no_object ↦ rw no_object (objects-append xs ys)
    ]

    pushed :
        (ret : List ObjectReference) (x : ℕ) (xs : List ℕ)
        → (ret ++ objects (x ∷ [])) ++ objects xs ≡ ret ++ objects (x ∷ xs)
    pushed ret x xs =
        append_assoc ret (objects (x ∷ [])) (objects xs)
        ∙ ap (λ zs. ret ++ zs) (sym (objects-append (x ∷ []) xs))

    store_registers_lem :
        (registers : List ℕ) (ret : List ObjectReference)
        → store_registers I s ret registers ≡ ok (ret ++ objects registers)
    unfolding store_registers
    store_registers_lem [] ret = ap ok (sym (append-nil ret))
    store_registers_lem (x ∷ xs) ret =
        rw (push_valid_lem ret x)
          (store_registers_lem xs (ret ++ objects (x ∷ [])) ∙ ap ok (pushed ret x xs))

    module _ (word : Address → ℕ) (top : Address) (low : top + pointer_size ≤ usize_mod) where
      scan_loop-stop :
          (fuel cursor : ℕ) (ret : List ObjectReference)
          → top ≤ cursor
          → scan_loop I s word fuel cursor top ret ≡ ok ret
      unfolding scan_loop
      scan_loop-stop zero cursor ret past = ground arith
      scan_loop-stop (suc fuel) cursor ret past = ground arith

      scan_loop-suc :
          (fuel cursor : ℕ) (ret : List ObjectReference)
          → cursor < top
          → scan_loop I s word (suc fuel) cursor top ret
            ≡ scan_loop I s word fuel
                (cursor + pointer_size)
                top
                (ret ++ objects (word cursor ∷ []))
      unfolding scan_loop plus
      scan_loop-suc fuel cursor ret below =
          rw (lt→ltb cursor top below, push_valid_lem ret (word cursor), at)
        where
          at : (cursor + pointer_size) % usize_mod ≡ cursor + pointer_size
          at = omega arith

      scan_loop_lem :
          (n fuel cursor : ℕ) (ret : List ObjectReference)
          → n ≤ fuel
          → top ≤ cursor + n * pointer_size
          → cursor + n * pointer_size < top + pointer_size
          → scan_loop I s word fuel cursor top ret ≡ ok (ret ++ objects (stack_words word cursor n))
      scan_loop_lem zero fuel cursor ret more lo hi =
          scan_loop-stop fuel cursor ret (omega arith) ∙ ap ok (sym (append-nil ret))
      scan_loop_lem (suc n) zero cursor ret more lo hi = absurd (omega arith)
      scan_loop_lem (suc n) (suc fuel) cursor ret more lo hi =
          scan_loop-suc fuel cursor ret (omega arith)
          ∙ scan_loop_lem n fuel (cursor + pointer_size) (ret ++ objects (word cursor ∷ []))
              (omega arith) (omega arith) (omega arith)
          ∙ ap ok (pushed ret (word cursor) (stack_words word (cursor + pointer_size) n))

      -- If the allocation map has a byte for every address of the space, the scan of a stack below
      -- the top of memory, from a stack pointer not above the low water mark, ends without a
      -- failure. It returns those words of the stack, in steps of a word up to the low water mark,
      -- that point into the space, into a word where an object starts, and behind them the
      -- registers that do.
      pub stack_scan-objects :
          (stack_ptr : Address) (registers : List ℕ)
          → stack_ptr ≤ top
          → stack_scan I s word stack_ptr top registers
            ≡ ok (
                objects (stack_words word stack_ptr ((top - stack_ptr + 7) / pointer_size))
                ++ objects registers)
      unfolding stack_scan diff
      stack_scan-objects stack_ptr registers below =
          let n = (top - stack_ptr + 7) / pointer_size in
          let scanned = objects (stack_words word stack_ptr n) in
          rw
            (scan_loop_lem n (diff top stack_ptr / pointer_size + 1) stack_ptr [] (omega arith)
              (omega arith) (omega arith))
            (store_registers_lem registers scanned)
