-- ===== src/Vma/Disjoint.antt =====
-- Areas that do not overlap: what a change of one of them keeps.
use rust_so_kernel.Prelude.{
  ◌+◌, ◌*◌, ◌%◌, ◌^◌, ◌≡◌, ◌≤◌, ◌<◌, ◌⊎◌, inl, inr, List, [], ◌∷◌, ◌++◌, All,
}
use rust_so_kernel.Vma.{Vma}

-- On page boundaries, not empty, and within the address space.
pub record IsAligned (v : Vma) : Type 0 where
  pub page : v.start % 4096 ≡ 0
  pub nonempty : 0 < v.size_pages
  pub fits : v.start + v.size_pages * 4096 < 2 ^ 64

abbrev pub Apart : Vma → Vma → Type 0
Apart u v = (u.start + u.size_pages * 4096 ≤ v.start) ⊎ (v.start + v.size_pages * 4096 ≤ u.start)

pub Apart-sym : (u v : Vma) → Apart u v → Apart v u
Apart-sym u v (inl h) = inr h
Apart-sym u v (inr h) = inl h

abbrev pub Disjoint : List Vma → Type 0
Disjoint [] = Unit
Disjoint (v ∷ vs) = All (Apart v) vs × Disjoint vs

module _ {ℓ κ} {A : Type ℓ} (P : A → Type κ) where
  pub All-insert : (xs ys : List A) (a : A) → P a → All P (xs ++ ys) → All P (xs ++ a ∷ ys)
  All-insert [] ys a p h = (p, h)
  All-insert (x ∷ xs) ys a p h = (h.0, All-insert xs ys a p h.1)

  pub All-extract : (xs ys : List A) (a : A) → All P (xs ++ a ∷ ys) → P a × All P (xs ++ ys)
  All-extract [] ys a h = h
  All-extract (x ∷ xs) ys a h = let (p, r) = All-extract xs ys a h.1 in (p, (h.0, r))

pub Disjoint-insert :
    (us vs : List Vma) (v : Vma)
    → All (Apart v) (us ++ vs)
    → Disjoint (us ++ vs)
    → Disjoint (us ++ v ∷ vs)
Disjoint-insert [] vs v a d = (a, d)
Disjoint-insert (u ∷ us) vs v a d =
    (All-insert (Apart u) us vs v (Apart-sym v u a.0) d.0, Disjoint-insert us vs v a.1 d.1)

pub Disjoint-extract :
    (us vs : List Vma) (v : Vma)
    → Disjoint (us ++ v ∷ vs)
    → All (Apart v) (us ++ vs) × Disjoint (us ++ vs)
Disjoint-extract [] vs v d = d
Disjoint-extract (u ∷ us) vs v d =
    let (a, r) = Disjoint-extract us vs v d.1 in
    let (p, s) = All-extract (Apart u) us vs v d.0 in ((Apart-sym u v p, a), (s, r))
