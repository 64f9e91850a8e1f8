-- ===== src/Gc/Roots/Objects.antt =====
-- src/heap/immix/immix_mutator.rs: what `init_object` writes, as `get_ref_byte` and `is_valid_object` read
-- it.
use Prim.Native.Nat.{ℕ, ◌-◌, ◌/◌, ◌≤◌, ◌<◌}
use mathlib.Core.Path.{◌≡◌, refl, sym, ap, ◌∙◌}
use mathlib.Core.Logic.{◌≢◌}
use mathlib.Core.Option.{some}
use native.Mathlib.Omega.{arith}
use immix_rust.Prelude.{
  set, length-set, get_elem?, get_elem?-set_self, get_elem?-set_ne, ok, load, lt→ltb,
}
use immix_rust.Common.Address.{Address, ObjectReference, pointer_size, diff}
use immix_rust.ObjectModel.{get_ref_byte}
use immix_rust.Crossbeam.{Injector}
use immix_rust.Immix.Block.{ImmixBlock}
use immix_rust.Immix.Space.{ImmixSpace}
use immix_rust.Immix.Mutator.{Heap, init_object}
use immix_rust.Gc.Roots.{starts_object, is_valid_object}
use immix_rust.Gc.Roots.Valid.{IsMapped, is_object, is_valid_object_lem}

module _ (I : Injector ImmixBlock) where
  -- The word of an address, counted from the start of the space.
  abbrev pub word_of : ImmixSpace I → Address → ℕ
  word_of s addr = (addr - s.start) / pointer_size

  abbrev pub IsInside : ImmixSpace I → Address → Type 0
  IsInside s addr = (s.start ≤ addr) × (addr < s.end)

  -- The space, when the byte of `addr` is `encode`.
  abbrev pub described : ImmixSpace I → Address → ℕ → ImmixSpace I
  described s addr encode = record s {
    alloc_map = record s.alloc_map { ptr = set s.alloc_map.ptr (word_of s addr) encode };
  }

  is_object-of_byte :
      (s : ImmixSpace I) (p : Address)
      → IsInside s p
      → (byte : ℕ) → get_elem? s.alloc_map.ptr (word_of s p) ≡ some byte
      → is_object I s p ≡ starts_object byte
  is_object-of_byte s p (lo, hi) byte e = ground (arith, e)

  module _ (s : ImmixSpace I) (mapped : IsMapped I s) where
    get_ref_byte-inside :
        (p : ObjectReference)
        → IsInside s p
        → get_ref_byte s.alloc_map.ptr s.start p ≡ load s.alloc_map.ptr (word_of s p)
    unfolding get_ref_byte diff
    get_ref_byte-inside p (lo, hi) = ap (load s.alloc_map.ptr) (omega (arith, mapped.low))

    module _ (addr : Address) (inside : IsInside s addr) (encode : ℕ) where
      described-IsMapped : IsMapped I (described s addr encode)
      described-IsMapped = record {
        begins = mapped.begins;
        low = mapped.low;
        sized = λ p lo hi.
            rw (length-set s.alloc_map.ptr (word_of s addr) encode) (mapped.sized p lo hi);
      }

      here : get_elem? (set s.alloc_map.ptr (word_of s addr) encode) (word_of s addr) ≡ some encode
      here =
          get_elem?-set_self s.alloc_map.ptr (word_of s addr) encode
            (mapped.sized addr inside.0 inside.1)

      there :
          (p : ObjectReference)
          → word_of s p ≢ word_of s addr
          → get_elem? (set s.alloc_map.ptr (word_of s addr) encode) (word_of s p)
            ≡ get_elem? s.alloc_map.ptr (word_of s p)
      there p other =
          get_elem?-set_ne s.alloc_map.ptr (word_of s addr) (word_of s p) encode
            (λ e. other (sym e))

  module _ (h : Heap I) (mapped : IsMapped I h.space) (known : h.local.space_start ≡ h.space.start)
      (addr : Address) (inside : IsInside h.space addr) (encode : ℕ) where
    abbrev after : Heap I
    after = record h { space = described h.space addr encode }

    index_known : diff addr h.local.space_start / pointer_size ≡ word_of h.space addr
    unfolding diff
    index_known = omega (arith, known, mapped.low, inside.0, inside.1)

    init_object-runs : init_object I h addr encode ≡ ok after
    unfolding init_object
    init_object-runs = rw (index_known, lt→ltb _ _ (mapped.sized addr inside.0 inside.1)) refl

    -- `init_object` at an address of the space returns; the byte that it writes is the one that
    -- `get_ref_byte` reads for the object, and a scan takes the address for an object as the start
    -- bit of the byte says; what both say of an address in any other word is as before; and nothing
    -- but the allocation map changes, which has a byte for every address of the space, as before.
    pub init_object-described :
        (h' : Heap I) × (init_object I h addr encode ≡ ok h')
        × (get_ref_byte h'.space.alloc_map.ptr h'.space.start addr ≡ ok encode)
        × (is_valid_object addr h'.space.start h'.space.end h'.space.alloc_map
            ≡ ok (starts_object encode))
        × ((p : ObjectReference)
            → IsInside h.space p
            → word_of h.space p ≢ word_of h.space addr
            → (get_ref_byte h'.space.alloc_map.ptr h'.space.start p
                ≡ get_ref_byte h.space.alloc_map.ptr h.space.start p)
              × (is_valid_object p h'.space.start h'.space.end h'.space.alloc_map
                  ≡ is_valid_object p h.space.start h.space.end h.space.alloc_map))
        × (h' ≡ record h { space = record h.space { alloc_map = h'.space.alloc_map } })
        × IsMapped I h'.space
    init_object-described =
        let s = h.space in
        let s' = described s addr encode in
        let mapped' = described-IsMapped s mapped addr inside encode in
        let written = here s mapped addr inside encode in
        (
          after,
          init_object-runs,
          get_ref_byte-inside s' mapped' addr inside ∙ rw written refl,
          is_valid_object_lem I s' mapped' addr
              ∙ ap ok (is_object-of_byte s' addr inside encode written),
          λ p inside' other.
              let same = there s mapped addr inside encode p other in
              (
                get_ref_byte-inside s' mapped' p inside'
                    ∙ rw same (sym (get_ref_byte-inside s mapped p inside')),
                is_valid_object_lem I s' mapped' p
                    ∙ rw same (sym (is_valid_object_lem I s mapped p)),
              ),
          refl,
          mapped',
        )
