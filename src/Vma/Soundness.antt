-- ===== src/Vma/Soundness.antt =====
-- The areas of a process stay aligned, inside the address space and apart from each other.
use rust_so_kernel.Prelude.{
  ℕ, ◌+◌, ◌-◌, ◌*◌, ◌/◌, ◌%◌, ◌≡◌, ◌≤◌, ◌<◌, sym, arith, some, true, false, ◌&&◌, List, [], ◌∷◌,
  ◌++◌, All, Bool-cases, inl, inr, some_inj, subst, ltb, leb,
}
use rust_so_kernel.Vma.{Vma, vma_end, any, is_growable, grown_size}
use rust_so_kernel.Vma.Disjoint.{
  IsAligned, Apart, Disjoint, All-insert, All-extract, Disjoint-insert, Disjoint-extract,
}
use rust_so_kernel.Vma.Areas.{IsPut, any-false}

pub record IsLaidOut (vs : List Vma) : Type 0 where
  pub aligned : All IsAligned vs
  pub apart : Disjoint vs

pub All-map {ℓ κ μ ν} :
    {A : Type ℓ} (P : A → Type κ) (Q : A → Type μ) (R : A → Type ν)
    → ((a : A) → P a → Q a → R a)
    → (xs : List A) → All P xs
    → All Q xs
    → All R xs
All-map P Q R f [] p q = tt
All-map P Q R f (x ∷ xs) p q = (f x p.0 q.0, All-map P Q R f xs p.1 q.1)

pub put-IsLaidOut :
    (v : Vma) (vs ws : List Vma)
    → IsPut v vs ws
    → IsAligned v
    → All (Apart v) vs
    → IsLaidOut vs
    → IsLaidOut ws
put-IsLaidOut v vs ws put a ap_v s =
    let aligned : All IsAligned (put.before ++ put.behind) =
      subst (All IsAligned) put.less s.aligned in
    subst IsLaidOut (sym put.more) (record {
      aligned = All-insert IsAligned put.before put.behind v a aligned;
      apart =
          Disjoint-insert put.before put.behind v (subst (All (Apart v)) put.less ap_v)
            (subst Disjoint put.less s.apart);
    })

pub taken-IsLaidOut :
    (v : Vma) (vs ws : List Vma)
    → IsPut v vs ws
    → IsLaidOut ws
    → IsAligned v × All (Apart v) vs × IsLaidOut vs
taken-IsLaidOut v vs ws put s =
    let (a, aligned) =
      All-extract IsAligned put.before put.behind v (subst (All IsAligned) put.more s.aligned) in
    let (ap_v, apart) =
      Disjoint-extract put.before put.behind v (subst Disjoint put.more s.apart) in
    (
      a,
      subst (All (Apart v)) (sym put.less) ap_v,
      subst IsLaidOut (sym put.less) (record { aligned = aligned; apart = apart }),
    )

pub vma_end-fits : (v : Vma) → IsAligned v → vma_end v ≡ v.start + v.size_pages * 4096
vma_end-fits v a = let k = a.fits in omega arith

-- `overlaps` finds every area in the way.
no_overlap-Apart :
    (v u : Vma)
    → IsAligned v
    → IsAligned u
    → (ltb u.start (vma_end v) && ltb v.start (vma_end u)) ≡ false
    → Apart v u
no_overlap-Apart v u a b h = let p = vma_end-fits v a in let q = vma_end-fits u b in ground arith

pub overlaps-Apart :
    (v : Vma) (vs : List Vma)
    → IsAligned v
    → All IsAligned vs
    → any (λ u. ltb u.start (vma_end v) && ltb v.start (vma_end u)) vs ≡ false
    → All (Apart v) vs
overlaps-Apart v vs a aligned h =
    All-map IsAligned (λ u. (ltb u.start (vma_end v) && ltb v.start (vma_end u)) ≡ false) (Apart v)
      (λ u. no_overlap-Apart v u a) vs aligned
      (any-false (λ u. ltb u.start (vma_end v) && ltb v.start (vma_end u)) vs h)

-- What the tests of `grow_stack` leave.
pub record IsGrown (page : ℕ) (v : Vma) (size : ℕ) : Type 0 where
  pub growable : is_growable v ≡ true
  pub below : page < v.start
  pub near : (v.start - page) / 4096 ≤ 64
  pub bounded : size ≤ 2048
  pub to_end : size ≡ (vma_end v - page) / 4096

pub grown_size-IsGrown :
    (page : ℕ) (v : Vma) (size : ℕ) → grown_size page v ≡ some size → IsGrown page v size
unfolding grown_size
grown_size-IsGrown page v size h = elim (Bool-cases (is_growable v)) [
  | inr no_stack ↦ absurd (let h' = rw (grown_size, no_stack) at h in cc)
  | inl stack ↦ (elim (Bool-cases (leb v.start page)) [
    | inl above ↦ absurd (let h' = rw (grown_size, stack, above) at h in cc)
    | inr below ↦ (elim (Bool-cases (ltb 64 ((v.start - page) / 4096))) [
      | inl far ↦ absurd (let h' = rw (grown_size, stack, below, far) at h in cc)
      | inr near ↦ (elim (Bool-cases (ltb 2048 ((vma_end v - page) / 4096))) [
        | inl large ↦ absurd (let h' = rw (grown_size, stack, below, near, large) at h in cc)
        | inr small ↦
            let e : (vma_end v - page) / 4096 ≡ size =
              some_inj (rw (grown_size, stack, below, near, small) at h) in
            record {
              growable = stack;
              below = ground arith;
              near = ground arith;
              bounded = ground arith;
              to_end = sym e;
            }
      ])
    ])
  ])
]

-- The area after its growth: the same end, and apart from what is neither behind it nor in the way.
pub grown-IsAligned :
    (page size : ℕ) (v : Vma)
    → page % 4096 ≡ 0
    → IsAligned v
    → IsGrown page v size
    → (page + size * 4096 ≡ v.start + v.size_pages * 4096)
      × IsAligned (record v { start = page; size_pages = size })
grown-IsAligned page size v at_page a g =
    let e = vma_end-fits v a in
    let k = a.fits in
    let size_of = g.to_end in
    let at_start = a.page in
    let low = g.below in
    let same : page + size * 4096 ≡ v.start + v.size_pages * 4096 = omega arith in
    (
      same,
      record { page = at_page; nonempty = let n = a.nonempty in omega arith; fits = omega arith },
    )

pub grown-Apart :
    (page size : ℕ) (v o : Vma)
    → page + size * 4096 ≡ v.start + v.size_pages * 4096
    → IsAligned o × Apart v o
    → (ltb o.start v.start && ltb page (vma_end o)) ≡ false
    → Apart (record v { start = page; size_pages = size }) o
grown-Apart page size v o same (a, ap_o) h =
    let e = vma_end-fits o a in let n = a.nonempty in ground arith
