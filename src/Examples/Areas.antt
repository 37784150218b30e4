-- ===== src/Examples/Areas.antt =====
-- Memory areas at concrete inputs.
use rust_so_kernel.Prelude.{
  ◌+◌, ◌*◌, ◌%◌, ◌^◌, ◌≡◌, ◌<◌, refl, none, some, false, [], ◌∷◌, arith, inl,
}
use rust_so_kernel.Vma.{
  Vma, VmaList, areas, add, remove, overlaps, any, grow_stack, grow_target, grown_size, anonymous,
  code, growable_stack, no_vmas,
}
use rust_so_kernel.Vma.Disjoint.{IsAligned}
use rust_so_kernel.Vma.Soundness.{IsLaidOut}
use rust_so_kernel.Vma.Reached.{Reached}
use rust_so_kernel.Vma.Lookup.{Covers, grow_stack-Covers}

abbrev text : Vma
text = record { start = 0x400000; size_pages = 4; flags = 5; kind = code }

abbrev stack : Vma
stack = record { start = 0x7000000; size_pages = 16; flags = 7; kind = growable_stack }

abbrev heap : Vma
heap = record { start = 0x800000; size_pages = 2; flags = 7; kind = anonymous }

abbrev loaded : VmaList
loaded = some text ∷ none ∷ some stack ∷ none ∷ []

aligned :
    (v : Vma)
    → v.start % 4096 ≡ 0
    → 0 < v.size_pages
    → v.start + v.size_pages * 4096 < 2 ^ 64
    → IsAligned v
aligned v p n f = record { page = p; nonempty = n; fits = f }

loaded-IsLaidOut : IsLaidOut (areas loaded)
unfolding areas
loaded-IsLaidOut = record {
  aligned = (
    aligned text (omega arith) (omega arith) (omega arith),
    (aligned stack (omega arith) (omega arith) (omega arith), tt),
  );
  apart = ((inl (omega arith), tt), (tt, tt));
}

abbrev with_heap : VmaList
with_heap = some text ∷ some heap ∷ some stack ∷ none ∷ []

heap_is_free : overlaps heap.start heap.size_pages loaded ≡ false
unfolding overlaps areas any
heap_is_free = refl

heap_is_added : add heap loaded ≡ some with_heap
unfolding add
heap_is_added = refl

abbrev without_text : VmaList
without_text = none ∷ none ∷ some stack ∷ none ∷ []

text_is_removed : remove 0x400000 loaded ≡ some (text, without_text)
unfolding remove
text_is_removed = refl

-- A push just below the stack.
abbrev grown : Vma
grown = record stack { start = 0x6FFF000; size_pages = 17 }

abbrev with_grown : VmaList
with_grown = some text ∷ none ∷ some grown ∷ none ∷ []

stack_grows : grow_stack 0x6FFFFF8 loaded ≡ some (grown, with_grown)
unfolding grow_stack grow_target grown_size areas any
stack_grows = refl

wild_pointer : grow_stack 0x5000000 loaded ≡ none
unfolding grow_stack grow_target grown_size areas any
wild_pointer = refl

grow_stack-Covers_example : Covers 0x6FFFFF8 grown loaded with_grown
grow_stack-Covers_example =
    grow_stack-Covers 0x6FFFFF8 grown loaded with_grown loaded-IsLaidOut stack_grows

abbrev first_list : VmaList
unfolding no_vmas
first_list = elim (add heap no_vmas) [ none ↦ [] | some slots ↦ slots ]
