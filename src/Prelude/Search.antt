-- ===== src/Prelude/Search.antt =====
-- The library calls that search a sequence: `iter().find`, `position` with `remove`, and
-- `iter_mut().find` with a change made to what it finds.
use mathlib.Core.Path.{◌≡◌, subst}
use mathlib.Core.Bool.{Bool, true, false}
use mathlib.Core.Option.{Option, none, some}
use mathlib.Core.List.{List, [], ◌∷◌}
use mathlib.Core.Logic.{inl, inr}
use rust_so_kernel.Prelude.Tests.{if◌then◌else◌, Bool-cases, Option-cases, some_pair, some_inj}
use rust_so_kernel.Prelude.Lists.{All}

module _ {ℓ} {A : Type ℓ} (test : A → Bool) where
  unfoldable pub find? : List A → Option A
  find? [] = none
  find? (x ∷ xs) = if test x then some x else find? xs

  unfoldable pub remove_first : List A → Option (A × List A)
  remove_first [] = none
  remove_first (x ∷ xs) =
      if test x
      then some (x, xs)
      else (elim (remove_first xs) [ none ↦ none | some (y, rest) ↦ some (y, x ∷ rest) ])

  unfoldable pub change_first : (A → A) → List A → Option (List A)
  change_first f [] = none
  change_first f (x ∷ xs) =
      if test x
      then some (f x ∷ xs)
      else (elim (change_first f xs) [ none ↦ none | some ys ↦ some (x ∷ ys) ])

  -- A list cut at the first element that passes the test.
  pub data Cut : List A → A → List A → Type ℓ where
    front : (x : A) (xs : List A) → test x ≡ true → Cut (x ∷ xs) x xs
    later :
        (x y : A) (xs rest : List A) → test x ≡ false → Cut xs y rest → Cut (x ∷ xs) y (x ∷ rest)

  pub remove_first-Cut :
      (xs : List A) (y : A) (rest : List A) → remove_first xs ≡ some (y, rest) → Cut xs y rest
  unfolding remove_first
  remove_first-Cut [] y rest h = absurd (cc)
  remove_first-Cut (x ∷ xs) y rest h = elim (Bool-cases (test x)) [
    | inl pass ↦
        let (e, l) = some_pair (rw (pass, remove_first) at h) in
        subst (λ z. Cut (x ∷ xs) z rest) e (subst (λ l. Cut (x ∷ xs) x l) l (front x xs pass))
    | inr fail ↦ (elim (Option-cases (remove_first xs)) [
      | inl e ↦ absurd (let h' = rw (fail, e) at h in cc)
      | inr ((z, l), e) ↦
          let (same, out) = some_pair (rw (fail, e) at h) in
          subst (λ z. Cut (x ∷ xs) z rest) same
            (subst (λ r. Cut (x ∷ xs) z r) out (later x z xs l fail (remove_first-Cut xs z l e)))
    ])
  ]

  -- A list with its first element that passes the test changed.
  pub data Changed (f : A → A) : List A → A → List A → Type ℓ where
    front : (x : A) (xs : List A) → test x ≡ true → Changed f (x ∷ xs) x (f x ∷ xs)
    later :
        (x y : A) (xs ys : List A)
        → test x ≡ false
        → Changed f xs y ys
        → Changed f (x ∷ xs) y (x ∷ ys)

  pub change_first-Changed :
      (f : A → A) (xs ys : List A)
      → change_first f xs ≡ some ys
      → (y : A) × (find? xs ≡ some y) × Changed f xs y ys
  unfolding change_first find?
  change_first-Changed f [] ys h = absurd (cc)
  change_first-Changed f (x ∷ xs) ys h = elim (Bool-cases (test x)) [
    | inl pass ↦ (
      x,
      rw pass,
      subst (Changed f (x ∷ xs) x) (some_inj (rw pass at h)) (Changed.front x xs pass),
    )
    | inr fail ↦ (elim (Option-cases (change_first f xs)) [
      | inl e ↦ absurd (let h' = rw (fail, e) at h in cc)
      | inr (l, e) ↦
          let (y, found, c) = change_first-Changed f xs l e in
          (
            y,
            rw fail found,
            subst (Changed f (x ∷ xs) y) (some_inj (rw (fail, e) at h))
                (Changed.later x y xs l fail c),
          )
    ])
  ]

module _ {ℓ κ} {A : Type ℓ} {test : A → Bool} (P : A → Type κ) where
  pub Cut-All :
      {xs : List A} {y : A} {rest : List A} → Cut test xs y rest → All P xs → P y × All P rest
  Cut-All (Cut.front x xs e) a = a
  Cut-All (Cut.later x y xs rest e c) a = let (p, r) = Cut-All c a.1 in (p, (a.0, r))

  pub Changed-All :
      {f : A → A} {xs : List A} {y : A} {ys : List A}
      → Changed test f xs y ys
      → ((x : A) → P x → P (f x))
      → All P xs
      → All P ys
  Changed-All (Changed.front x xs e) keep a = (keep x a.0, a.1)
  Changed-All (Changed.later x y xs ys e c) keep a = (a.0, Changed-All c keep a.1)

  pub Changed-find :
      {f : A → A} {xs : List A} {y : A} {ys : List A} → Changed test f xs y ys → All P xs → P y
  Changed-find (Changed.front x xs e) a = a.0
  Changed-find (Changed.later x y xs ys e c) a = Changed-find c a.1

module _ {ℓ} {A : Type ℓ} {test : A → Bool} where
  pub Cut-test : {xs : List A} {y : A} {rest : List A} → Cut test xs y rest → test y ≡ true
  Cut-test (Cut.front x xs e) = e
  Cut-test (Cut.later x y xs rest e c) = Cut-test c

  pub Changed-test :
      {f : A → A} {xs : List A} {y : A} {ys : List A} → Changed test f xs y ys → test y ≡ true
  Changed-test (Changed.front x xs e) = e
  Changed-test (Changed.later x y xs ys e c) = Changed-test c
