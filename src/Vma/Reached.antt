-- ===== src/Vma/Reached.antt =====
-- The areas after any calls of the list's operations.
use rust_so_kernel.Prelude.{
  ℕ, ◌-◌, ◌%◌, ◌≡◌, sym, ◌∙◌, ap, arith, some, false, ◌&&◌, List, ◌∷◌, ◌++◌, All, Option-cases,
  Bool-cases, inl, inr, some_pair, subst, ltb,
}
use rust_so_kernel.Vma.{
  Vma, VmaList, vma_end, areas, no_vmas, add, remove, any, overlaps, grow_target, grow_stack, clear,
}
use rust_so_kernel.Vma.Disjoint.{IsAligned, Apart}
use rust_so_kernel.Vma.Areas.{IsPut, areas-append, grow_target-IsTarget, any-false}
use rust_so_kernel.Vma.Soundness.{
  IsLaidOut, IsGrown, put-IsLaidOut, taken-IsLaidOut, grown_size-IsGrown, grown-IsAligned,
  grown-Apart, All-map,
}

-- What a growth does: the area `v` becomes `grown`, in its place.
pub record IsGrowth (addr : ℕ) (slots slots' : VmaList) (grown : Vma) : Type 0 where
  pub old : Vma
  pub size : ℕ
  pub rest : List Vma
  pub fits : IsGrown (addr - addr % 4096) old size
  pub now : grown ≡ record old { start = addr - addr % 4096; size_pages = size }
  pub was_there : IsPut old rest (areas slots)
  pub is_there : IsPut grown rest (areas slots')
  pub clear_way :
      any (λ o. ltb o.start old.start && ltb (addr - addr % 4096) (vma_end o)) rest ≡ false

pub grow_stack-IsGrowth :
    (addr : ℕ) (slots slots' : VmaList) (grown : Vma)
    → grow_stack addr slots ≡ some (grown, slots')
    → IsGrowth addr slots slots' grown
unfolding grow_stack
grow_stack-IsGrowth addr slots slots' grown h =
    let page = addr - addr % 4096 in
    elim (Option-cases (grow_target page slots)) [
      | inl e ↦ absurd (let h' = rw (grow_stack, e) at h in cc)
      | inr ((before, v, size, behind), e) ↦
          let blocked =
            any (λ o. ltb o.start v.start && ltb page (vma_end o)) (areas (before ++ behind)) in
          (elim (Bool-cases blocked) [
            | inl b ↦ absurd (let h' = rw (grow_stack, e, b) at h in cc)
            | inr way ↦
                let (same, out) = some_pair (rw (grow_stack, e, way) at h) in
                let t = grow_target-IsTarget page slots before behind v size e in
                let grown' : Vma = record v { start = page; size_pages = size } in
                record {
                  old = v;
                  size = size;
                  rest = areas (before ++ behind);
                  fits = grown_size-IsGrown page v size t.size_of;
                  now = sym same;
                  was_there = record {
                    before = areas before;
                    behind = areas behind;
                    less = areas-append before behind;
                    more = ap areas t.cut ∙ areas-append before (some v ∷ behind);
                  };
                  is_there =
                      subst (λ l. IsPut grown (areas (before ++ behind)) (areas l)) out
                        (subst
                          (λ (g : Vma).
                            IsPut g (areas (before ++ behind))
                              (areas (before ++ some grown' ∷ behind)))
                          same
                          (record {
                            before = areas before;
                            behind = areas behind;
                            less = areas-append before behind;
                            more = areas-append before (some grown' ∷ behind);
                          }));
                  clear_way = way;
                }
          ])
    ]

-- The calls of a list, an area being added where nothing overlaps it.
pub data Step : VmaList → VmaList → Type 0 where
  adds :
      (v : Vma) (slots slots' : VmaList)
      → IsAligned v
      → overlaps v.start v.size_pages slots ≡ false
      → add v slots ≡ some slots'
      → Step slots slots'
  removes :
      (start : ℕ) (v : Vma) (slots slots' : VmaList)
      → remove start slots ≡ some (v, slots')
      → Step slots slots'
  grows :
      (addr : ℕ) (v : Vma) (slots slots' : VmaList)
      → grow_stack addr slots ≡ some (v, slots')
      → Step slots slots'
  clears : (slots : VmaList) → Step slots (clear slots)

pub data Reached : VmaList → Type 0 where
  fresh : Reached no_vmas
  call : {slots slots' : VmaList} → Reached slots → Step slots slots' → Reached slots'

pub grow_stack-IsLaidOut :
    (addr : ℕ) (v : Vma) (slots slots' : VmaList)
    → grow_stack addr slots ≡ some (v, slots')
    → IsLaidOut (areas slots)
    → IsLaidOut (areas slots')
grow_stack-IsLaidOut addr v slots slots' h s =
    let page = addr - addr % 4096 in
    let g = grow_stack-IsGrowth addr slots slots' v h in
    let (a, away, rest) = taken-IsLaidOut g.old g.rest (areas slots) g.was_there s in
    let (to_end, aligned) = grown-IsAligned page g.size g.old (omega arith) a g.fits in
    let grown : Vma = record (g.old) { start = page; size_pages = g.size } in
    let pairs : All (λ o. IsAligned o × Apart g.old o) g.rest =
      All-map IsAligned (Apart g.old) (λ o. IsAligned o × Apart g.old o) (λ o p q. (p, q)) g.rest
        rest.aligned away in
    let apart : All (Apart grown) g.rest =
      All-map (λ o. IsAligned o × Apart g.old o)
        (λ o. (ltb o.start g.old.start && ltb page (vma_end o)) ≡ false) (Apart grown)
        (λ o. grown-Apart page g.size g.old o to_end) g.rest pairs
        (any-false (λ o. ltb o.start g.old.start && ltb page (vma_end o)) g.rest g.clear_way) in
    put-IsLaidOut grown g.rest (areas slots')
      (subst (λ (u : Vma). IsPut u g.rest (areas slots')) g.now g.is_there) aligned apart rest
