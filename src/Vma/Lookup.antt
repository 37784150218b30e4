-- ===== src/Vma/Lookup.antt =====
-- What `find` answers after a change of the list: the page-fault handler's view of it.
use rust_so_kernel.Prelude.{
  ℕ, ◌-◌, ◌%◌, ◌≡◌, ◌≤◌, sym, ◌∙◌, refl, arith, none, some, Bool, true, false, List, [], ◌∷◌, ◌++◌,
  All, Bool-cases, inl, inr, subst, if◌then◌else◌, find?,
}
use rust_so_kernel.Vma.{
  Vma, VmaList, contains, areas, find, add, remove, overlaps, grow_stack, is_growable,
}
use rust_so_kernel.Vma.Disjoint.{IsAligned, Apart}
use rust_so_kernel.Vma.Areas.{IsPut, add-IsPut, remove-IsPut}
use rust_so_kernel.Vma.Soundness.{
  IsLaidOut, IsGrown, put-IsLaidOut, taken-IsLaidOut, overlaps-Apart, All-map, vma_end-fits,
  grown-IsAligned,
}
use rust_so_kernel.Vma.Reached.{grow_stack-IsGrowth, grow_stack-IsLaidOut}

Apart-contains :
    (addr : ℕ) (v u : Vma)
    → IsAligned v
    → contains addr v ≡ true
    → IsAligned u
    → Apart v u
    → contains addr u ≡ false
Apart-contains addr v u a hit b h =
    let p = vma_end-fits v a in let q = vma_end-fits u b in ground arith

module _ {ℓ} {A : Type ℓ} (test : A → Bool) (a : A) where
  find?-skip : (xs ys : List A) → test a ≡ false → find? test (xs ++ a ∷ ys) ≡ find? test (xs ++ ys)
  unfolding find?
  find?-skip [] ys fail = rw fail refl
  find?-skip (x ∷ xs) ys fail = rw (find?-skip xs ys fail) refl

  find?-only :
      (xs ys : List A)
      → test a ≡ true
      → All (λ x. test x ≡ false) (xs ++ ys)
      → find? test (xs ++ a ∷ ys) ≡ some a
  unfolding find?
  find?-only [] ys pass h = rw pass refl
  find?-only (x ∷ xs) ys pass h = rw h.0 (find?-only xs ys pass h.1)

find?-none {ℓ} :
    {A : Type ℓ} (test : A → Bool) (xs : List A)
    → All (λ x. test x ≡ false) xs
    → find? test xs ≡ none
unfolding find?
find?-none test [] h = refl
find?-none test (x ∷ xs) h = rw h.0 (find?-none test xs h.1)

-- The areas apart from one that holds an address do not hold it.
others-miss :
    (addr : ℕ) (v : Vma) (vs ws : List Vma)
    → IsPut v vs ws
    → IsLaidOut ws
    → contains addr v ≡ true
    → All (λ u. contains addr u ≡ false) vs
others-miss addr v vs ws put s hit =
    let (a, away, rest) = taken-IsLaidOut v vs ws put s in
    All-map IsAligned (Apart v) (λ u. contains addr u ≡ false) (λ u. Apart-contains addr v u a hit)
      vs rest.aligned away

module _ (addr : ℕ) (v : Vma) (vs ws : List Vma) (put : IsPut v vs ws) (s : IsLaidOut ws) where
  put-find_hit : contains addr v ≡ true → find? (contains addr) ws ≡ some v
  put-find_hit hit = rw put.more (
      find?-only (contains addr) v put.before put.behind hit
        (subst (All (λ u. contains addr u ≡ false)) put.less (others-miss addr v vs ws put s hit)))

  put-find_miss : contains addr v ≡ false → find? (contains addr) ws ≡ find? (contains addr) vs
  put-find_miss miss =
      rw (put.more, put.less) (find?-skip (contains addr) v put.before put.behind miss)

  put-find :
      find? (contains addr) ws ≡ (if contains addr v then some v else find? (contains addr) vs)
  put-find = elim (Bool-cases (contains addr v)) [
    | inl hit ↦ rw hit (put-find_hit hit)
    | inr miss ↦ rw miss (put-find_miss miss)
  ]

-- Without the area, its addresses are nobody's.
taken-find :
    (addr : ℕ) (v : Vma) (vs ws : List Vma)
    → IsPut v vs ws
    → IsLaidOut ws
    → find? (contains addr) vs ≡ (if contains addr v then none else find? (contains addr) ws)
taken-find addr v vs ws put s = elim (Bool-cases (contains addr v)) [
  | inl hit ↦ rw hit (find?-none (contains addr) vs (others-miss addr v vs ws put s hit))
  | inr miss ↦
      rw (miss, put.more, put.less) (sym (find?-skip (contains addr) v put.before put.behind miss))
]

-- After an area is added where nothing overlaps it, `find` answers with it at its own addresses,
-- and at every other address as before.
pub find-add :
    (addr : ℕ) (v : Vma) (slots slots' : VmaList)
    → IsLaidOut (areas slots)
    → IsAligned v
    → overlaps v.start v.size_pages slots ≡ false
    → add v slots ≡ some slots'
    → find addr slots' ≡ (if contains addr v then some v else find addr slots)
unfolding find overlaps
find-add addr v slots slots' s a free h =
    let put = add-IsPut v slots slots' h in
    put-find addr v (areas slots) (areas slots') put (
      put-IsLaidOut v (areas slots) (areas slots') put a
        (overlaps-Apart v (areas slots) a s.aligned free) s)

-- After the area at an address is removed, `find` answers nothing at the addresses that it had, and
-- at every other address as before.
pub find-remove :
    (addr start : ℕ) (v : Vma) (slots slots' : VmaList)
    → IsLaidOut (areas slots)
    → remove start slots ≡ some (v, slots')
    → (v.start ≡ start) × (find addr slots' ≡ (if contains addr v then none else find addr slots))
unfolding find
find-remove addr start v slots slots' s h =
    let (at_start, put) = remove-IsPut start slots slots' v h in
    (at_start, taken-find addr v (areas slots') (areas slots) put s)

grown-holds :
    (fault size : ℕ) (v : Vma)
    → IsAligned v
    → IsGrown (fault - fault % 4096) v size
    → contains fault (record v { start = fault - fault % 4096; size_pages = size }) ≡ true
grown-holds fault size v a g =
    let grown : Vma = record v { start = fault - fault % 4096; size_pages = size } in
    let (same, b) = grown-IsAligned (fault - fault % 4096) size v (omega arith) a g in
    let end = vma_end-fits grown b in
    let low = g.below in let at_page = a.page in let some_page = a.nonempty in ground arith

grown-misses :
    (addr page size : ℕ) (v : Vma)
    → page % 4096 ≡ 0
    → IsAligned v
    → IsGrown page v size
    → contains addr (record v { start = page; size_pages = size }) ≡ false
    → contains addr v ≡ false
grown-misses addr page size v at_page a g miss =
    let grown : Vma = record v { start = page; size_pages = size } in
    let (same, b) = grown-IsAligned page size v at_page a g in
    let end = vma_end-fits grown b in
    let end' = vma_end-fits v a in let low = g.below in ground arith

-- What `grow_stack` makes of a fault.
pub record Covers (fault : ℕ) (grown : Vma) (slots slots' : VmaList) : Type 0 where
  pub holds : contains fault grown ≡ true
  pub stack : is_growable grown ≡ true
  pub bounded : grown.size_pages ≤ 2048
  pub found : find fault slots' ≡ some grown
  pub elsewhere : (addr : ℕ) → contains addr grown ≡ false → find addr slots' ≡ find addr slots

-- A stack that `grow_stack` grows holds the fault's address, which `find` then answers with it; it
-- has at most STACK_MAX_PAGES pages, and at the addresses outside of it `find` answers as before.
pub grow_stack-Covers :
    (fault : ℕ) (grown : Vma) (slots slots' : VmaList)
    → IsLaidOut (areas slots)
    → grow_stack fault slots ≡ some (grown, slots')
    → Covers fault grown slots slots'
unfolding find
grow_stack-Covers fault grown slots slots' s h =
    let page = fault - fault % 4096 in
    let g = grow_stack-IsGrowth fault slots slots' grown h in
    let s' = grow_stack-IsLaidOut fault grown slots slots' h s in
    let (a, away, rest) = taken-IsLaidOut g.old g.rest (areas slots) g.was_there s in
    let wide : Vma = record (g.old) { start = page; size_pages = g.size } in
    let there : IsPut wide g.rest (areas slots') =
      subst (λ (u : Vma). IsPut u g.rest (areas slots')) g.now g.is_there in
    let holds = grown-holds fault g.size g.old a g.fits in
    subst (λ (u : Vma). Covers fault u slots slots') (sym g.now)
      (record {
        holds = holds;
        stack = g.fits.growable;
        bounded = g.fits.bounded;
        found = put-find_hit fault wide g.rest (areas slots') there s' holds;
        elsewhere = λ addr miss.
            put-find_miss addr wide g.rest (areas slots') there s' miss
            ∙ sym (
                put-find_miss addr g.old g.rest (areas slots) g.was_there s
                  (grown-misses addr page g.size g.old (omega arith) a g.fits miss));
      })
