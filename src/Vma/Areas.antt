-- ===== src/Vma/Areas.antt =====
-- Where in the list of areas each operation makes its change.
use rust_so_kernel.Prelude.{
  ℕ, ◌≡◌, refl, ap, none, some, Bool, false, List, [], ◌∷◌, ◌++◌, All, Option-cases, Bool-cases,
  inl, inr, some_inj, some_pair, subst, ◌==◌, ==→eq,
}
use rust_so_kernel.Vma.{Vma, VmaList, areas, add, remove, any, grown_size, grow_target, clear}

pub areas-append : (xs ys : VmaList) → areas (xs ++ ys) ≡ areas xs ++ areas ys
unfolding areas
areas-append [] ys = refl
areas-append (none ∷ xs) ys = areas-append xs ys
areas-append (some v ∷ xs) ys = ap (◌∷◌ v) (areas-append xs ys)

pub areas-clear : (slots : VmaList) → areas (clear slots) ≡ []
unfolding areas clear
areas-clear [] = refl
areas-clear (slot ∷ slots) = areas-clear slots

-- One list is the other with an area put in.
pub record IsPut (v : Vma) (without within : List Vma) : Type 0 where
  pub before : List Vma
  pub behind : List Vma
  pub less : without ≡ before ++ behind
  pub more : within ≡ before ++ v ∷ behind

IsPut-behind : (u v : Vma) (vs ws : List Vma) → IsPut v vs ws → IsPut v (u ∷ vs) (u ∷ ws)
IsPut-behind u v vs ws p = record {
  before = u ∷ p.before;
  behind = p.behind;
  less = ap (◌∷◌ u) p.less;
  more = ap (◌∷◌ u) p.more;
}

IsPut-here : (v : Vma) (vs : List Vma) → IsPut v vs (v ∷ vs)
IsPut-here v vs = record { before = []; behind = vs; less = refl; more = refl }

pub add-IsPut :
    (v : Vma) (slots slots' : VmaList)
    → add v slots ≡ some slots'
    → IsPut v (areas slots) (areas slots')
unfolding add areas
add-IsPut v [] slots' h = absurd (cc)
add-IsPut v (none ∷ slots) slots' h =
    subst (λ l. IsPut v (areas slots) (areas l)) (some_inj h) (IsPut-here v (areas slots))
add-IsPut v (some u ∷ slots) slots' h = elim (Option-cases (add v slots)) [
  | inl e ↦ absurd (let h' = rw e at h in cc)
  | inr (l, e) ↦
      subst (λ l. IsPut v (u ∷ areas slots) (areas l)) (some_inj (rw e at h))
        (IsPut-behind u v (areas slots) (areas l) (add-IsPut v slots l e))
]

pub remove-IsPut :
    (start : ℕ) (slots slots' : VmaList) (v : Vma)
    → remove start slots ≡ some (v, slots')
    → (v.start ≡ start) × IsPut v (areas slots') (areas slots)
unfolding remove areas
remove-IsPut start [] slots' v h = absurd (cc)
remove-IsPut start (none ∷ slots) slots' v h = elim (Option-cases (remove start slots)) [
  | inl e ↦ absurd (let h' = rw e at h in cc)
  | inr ((u, l), e) ↦
      let (same, out) = some_pair (rw e at h) in
      let (at_start, put) = remove-IsPut start slots l u e in
      subst (λ l. (v.start ≡ start) × IsPut v (areas l) (areas slots)) out
        (subst (λ (v : Vma). (v.start ≡ start) × IsPut v (areas l) (areas slots)) same
          (at_start, put))
]
remove-IsPut start (some u ∷ slots) slots' v h = elim (Bool-cases (u.start == start)) [
  | inl hit ↦
      let (same, out) = some_pair (rw hit at h) in
      subst (λ l. (v.start ≡ start) × IsPut v (areas l) (u ∷ areas slots)) out
        (subst (λ (v : Vma). (v.start ≡ start) × IsPut v (areas slots) (u ∷ areas slots)) same
          (==→eq u.start start hit, IsPut-here u (areas slots)))
  | inr miss ↦ (elim (Option-cases (remove start slots)) [
    | inl e ↦ absurd (let h' = rw (miss, e) at h in cc)
    | inr ((w, l), e) ↦
        let (same, out) = some_pair (rw (miss, e) at h) in
        let (at_start, put) = remove-IsPut start slots l w e in
        subst (λ l. (v.start ≡ start) × IsPut v (areas l) (u ∷ areas slots)) out
          (subst (λ (v : Vma). (v.start ≡ start) × IsPut v (u ∷ areas l) (u ∷ areas slots)) same
            (at_start, IsPut-behind u w (areas l) (areas slots) put))
  ])
]

-- The cut of the slots at the area that grows.
pub record IsTarget (page : ℕ) (slots before : VmaList) (v : Vma) (size : ℕ) (behind : VmaList)
    : Type 0 where
  pub cut : slots ≡ before ++ some v ∷ behind
  pub size_of : grown_size page v ≡ some size

abbrev Target : ℕ → VmaList → VmaList × Vma × ℕ × VmaList → Type 0
Target page slots (before, v, size, behind) = IsTarget page slots before v size behind

grow_target-Target :
    (page : ℕ) (slots : VmaList) (t : VmaList × Vma × ℕ × VmaList)
    → grow_target page slots ≡ some t
    → Target page slots t
unfolding grow_target
grow_target-Target page [] t h = absurd (cc)
grow_target-Target page (none ∷ slots) t h = elim (Option-cases (grow_target page slots)) [
  | inl e ↦ absurd (let h' = rw e at h in cc)
  | inr ((before, v, size, behind), e) ↦
      let r = grow_target-Target page slots (before, v, size, behind) e in
      subst (Target page (none ∷ slots)) (some_inj (rw e at h))
        (record { cut = ap (λ l. none ∷ l) r.cut; size_of = r.size_of })
]
grow_target-Target page (some u ∷ slots) t h = elim (Option-cases (grown_size page u)) [
  | inr (size, fits) ↦
      subst (Target page (some u ∷ slots)) (some_inj (rw (grow_target, fits) at h))
        (record { cut = refl; size_of = fits })
  | inl e' ↦ (elim (Option-cases (grow_target page slots)) [
    | inl e ↦ absurd (let h' = rw (grow_target, e', e) at h in cc)
    | inr ((before, v, size, behind), e) ↦
        let r = grow_target-Target page slots (before, v, size, behind) e in
        subst (Target page (some u ∷ slots)) (some_inj (rw (grow_target, e', e) at h))
          (record { cut = ap (λ l. some u ∷ l) r.cut; size_of = r.size_of })
  ])
]

pub grow_target-IsTarget :
    (page : ℕ) (slots before behind : VmaList) (v : Vma) (size : ℕ)
    → grow_target page slots ≡ some (before, v, size, behind)
    → IsTarget page slots before v size behind
grow_target-IsTarget page slots before behind v size h =
    grow_target-Target page slots (before, v, size, behind) h

-- No element passes the test.
pub any-false {ℓ} :
    {A : Type ℓ} (test : A → Bool) (xs : List A)
    → any test xs ≡ false
    → All (λ x. test x ≡ false) xs
unfolding any
any-false test [] h = tt
any-false test (x ∷ xs) h = elim (Bool-cases (test x)) [
  | inl pass ↦ absurd (let h' = rw pass at h in cc)
  | inr fail ↦ (fail, any-false test xs (rw fail at h))
]
