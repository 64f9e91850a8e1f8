-- ===== src/Immix/Mutator/Paths.antt =====
-- src/heap/immix/immix_mutator.rs: every path of `alloc` is sound.
use Prim.Native.Nat.{ℕ, ◌≤◌}
use mathlib.Core.Path.{◌≡◌}
use immix_rust.Prelude.{Outcome, ok, Ensures, Ensures-map, Ensures-ok}
use immix_rust.Common.Address.{Address, plus, align_up}
use immix_rust.Crossbeam.{Injector}
use immix_rust.Immix.Block.{ImmixBlock}
use immix_rust.Immix.Mutator.{Layout, Heap, alloc}
use immix_rust.Immix.Mutator.Invariant.{idle, holding, IsHeap}
use immix_rust.Immix.Mutator.Allocation.{IsLayout}
use immix_rust.Immix.Mutator.Soundness.{Sound, fast-Sound, no_fast}
use immix_rust.Immix.Mutator.Parts.{IsReady, alloc-Ensures}

module _ (I : Injector ImmixBlock) (layout : Layout) (lay : IsLayout layout) where
  pub fast_path :
      (h : Heap I)
      → IsReady I h
      → plus (align_up h.local.cursor layout.align) layout.size ≤ h.local.limit
      → Sound I layout (
        align_up h.local.cursor layout.align,
        record h {
          local = record h.local {
            cursor = plus (align_up h.local.cursor layout.align) layout.size;
          };
        },
      )
  fast_path h (v, idle c l e line) fast = absurd (no_fast I layout lay h.local c l fast)
  fast_path h (v, holding b hole) fast = fast-Sound I layout lay h b v hole fast

-- Whenever `alloc` returns, from a heap whose blocks are well formed, whatever path it took and
-- whatever the barrier did in between, the object is aligned as its layout asks, lies in one block
-- of the space and below the limit, the cursor stands behind it, and every line from the object's
-- first on up to the limit is marked as fresh; and the blocks of the space are as well formed as
-- before. The barrier is assumed to keep them well formed, and the object is not empty.
pub alloc-Sound :
    (I : Injector ImmixBlock) (sync_barrier : Heap I → Outcome (Heap I))
    → ((h : Heap I) → IsHeap I h → Ensures (IsHeap I) (sync_barrier h))
    → (layout : Layout) → IsLayout layout
    → (fuel : ℕ) (h : Heap I) → IsReady I h
    → (addr : Address) (h' : Heap I) → alloc I sync_barrier fuel h layout ≡ ok (addr, h')
    → Sound I layout (addr, h')
alloc-Sound I sync_barrier barrier_ok layout lay fuel h v addr h' e =
    Ensures-ok (Sound I layout) (alloc I sync_barrier fuel h layout) (addr, h')
      (alloc-Ensures I sync_barrier layout (λ _. Unit) (Sound I layout)
        (record {
          barrier = λ h v.
              Ensures-map (IsHeap I) (λ h'. IsHeap I h' × Unit) (sync_barrier h) (λ h' w. (w, tt))
                (barrier_ok h v.0);
          return_block = λ h k. k;
          next_block = λ h s m e k. k;
          take_block = λ h b k. k;
          take_hole = λ h h' b i r place t k. k;
          fast = λ h v k fits. fast_path I layout lay h v fits;
        })
        fuel h v tt)
      e
