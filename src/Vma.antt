-- ===== src/Vma.antt =====
-- kernel/src/memory/vma.rs: the list of a process's memory areas, an array of 64 slots.
pub mod Disjoint
pub mod Areas
pub mod Soundness
pub mod Reached
pub mod Lookup
use rust_so_kernel.Prelude.{
  ℕ, ◌+◌, ◌-◌, ◌*◌, ◌/◌, ◌%◌, ◌^◌, Option, none, some, Bool, true, false, ◌&&◌, not, List, [], ◌∷◌,
  ◌++◌, ◌==◌, ltb, leb, if◌then◌else◌, replicate, find?,
}

abbrev pub max_vmas_per_process : ℕ
max_vmas_per_process = 64

abbrev pub stack_growth_guard_pages : ℕ
stack_growth_guard_pages = 64

abbrev pub stack_max_pages : ℕ
stack_max_pages = 2048

pub data VmaKind : Type 0 where
  anonymous : VmaKind
  code : VmaKind
  huge_2_m : VmaKind
  growable_stack : VmaKind

pub record Vma : Type 0 where
  pub start : ℕ
  pub size_pages : ℕ
  pub flags : ℕ
  pub kind : VmaKind

-- `Vma::end`
abbrev pub vma_end : Vma → ℕ
vma_end v = (v.start + v.size_pages * 4096) % 2 ^ 64

abbrev pub contains : ℕ → Vma → Bool
contains addr v = leb v.start addr && ltb addr (vma_end v)

abbrev pub VmaList : Type 0
VmaList = List (Option Vma)

-- `VmaList::new`
unfoldable pub no_vmas : VmaList
no_vmas = replicate 64 none

-- `iter()`: the slots that hold an area.
unfoldable pub areas : VmaList → List Vma
areas [] = []
areas (none ∷ slots) = areas slots
areas (some v ∷ slots) = v ∷ areas slots

-- `none` is the error of a full list.
unfoldable pub add : Vma → VmaList → Option VmaList
add v [] = none
add v (none ∷ slots) = some (some v ∷ slots)
add v (some u ∷ slots) = elim (add v slots) [ none ↦ none | some slots' ↦ some (some u ∷ slots') ]

unfoldable pub find : ℕ → VmaList → Option Vma
unfolding areas find?
find addr slots = find? (contains addr) (areas slots)

unfoldable pub remove : ℕ → VmaList → Option (Vma × VmaList)
remove start [] = none
remove start (none ∷ slots) = elim (remove start slots) [
  | none ↦ none
  | some (v, slots') ↦ some (v, none ∷ slots')
]
remove start (some u ∷ slots) =
    if u.start == start
    then some (u, none ∷ slots)
    else (elim (remove start slots) [ none ↦ none | some (v, slots') ↦ some (v, some u ∷ slots') ])

unfoldable pub any {ℓ} : {A : Type ℓ} → (A → Bool) → List A → Bool
any test [] = false
any test (x ∷ xs) = if test x then true else any test xs

unfoldable pub overlaps : ℕ → ℕ → VmaList → Bool
unfolding areas any
overlaps start size_pages slots =
    let end = (start + size_pages * 4096) % 2 ^ 64 in
    any (λ v. ltb v.start end && ltb start (vma_end v)) (areas slots)

abbrev pub is_growable : Vma → Bool
is_growable v = elim v.kind [ growable_stack ↦ true | _ ↦ false ]

-- The tests of the loop of `grow_stack` on one area: the size that it would have.
unfoldable pub grown_size : ℕ → Vma → Option ℕ
grown_size page v =
    let new_size_pages = (vma_end v - page) / 4096 in
    if not (is_growable v)
    then none
    else if leb v.start page
    then none
    else if ltb stack_growth_guard_pages ((v.start - page) / 4096)
    then none
    else if ltb stack_max_pages new_size_pages
    then none
    else some new_size_pages

-- The first area that can grow, with its new size. `idx` is the cut of the array: what stands before
-- the area and what stands behind it.
unfoldable pub grow_target : ℕ → VmaList → Option (VmaList × Vma × ℕ × VmaList)
unfolding grown_size
grow_target page [] = none
grow_target page (none ∷ slots) = elim (grow_target page slots) [
  | none ↦ none
  | some (before, v, size, behind) ↦ some (none ∷ before, v, size, behind)
]
grow_target page (some u ∷ slots) = elim (grown_size page u) [
  | some size ↦ some ([], u, size, slots)
  | none ↦ (elim (grow_target page slots) [
    | none ↦ none
    | some (before, v, size, behind) ↦ some (some u ∷ before, v, size, behind)
  ])
]

unfoldable pub grow_stack : ℕ → VmaList → Option (Vma × VmaList)
unfolding grow_target areas any
grow_stack addr slots =
    let page = addr - addr % 4096 in
    elim (grow_target page slots) [
      | none ↦ none
      | some (before, v, size, behind) ↦
          if any (λ o. ltb o.start v.start && ltb page (vma_end o)) (areas (before ++ behind))
          then none
          else (let grown = record v { start = page; size_pages = size } in
              some (grown, before ++ some grown ∷ behind))
    ]

unfoldable pub clear : VmaList → VmaList
clear [] = []
clear (slot ∷ slots) = none ∷ clear slots
