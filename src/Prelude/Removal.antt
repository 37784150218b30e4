-- ===== src/Prelude/Removal.antt =====
-- A change made to the first element that passes one test, before its removal by another.
use mathlib.Core.Path.{◌≡◌, refl, subst}
use mathlib.Core.Bool.{Bool, true, false}
use mathlib.Core.Option.{some}
use mathlib.Core.List.{List, [], ◌∷◌}
use mathlib.Core.Logic.{inl, inr}
use rust_so_kernel.Prelude.Tests.{Bool-cases, some_inj}
use rust_so_kernel.Prelude.Search.{find?, change_first, remove_first, Cut}

-- Where two tests, one the stronger, find the same element, the change by the first is what the
-- removal by the second takes out.
pub record IsTaken {ℓ} {A : Type ℓ} (strong weak : A → Bool) (f : A → A) (xs : List A) (w : A)
    : Type ℓ where
  pub rest : List A
  pub changed : List A
  pub change : change_first strong f xs ≡ some changed
  pub remove : remove_first weak changed ≡ some (f w, rest)
  pub cut : Cut weak xs w rest
  pub found : find? strong xs ≡ some w

module _ {ℓ} {A : Type ℓ} (strong weak : A → Bool) (f : A → A) (w : A)
    (imp : (x : A) → weak x ≡ false → strong x ≡ false) (hit : strong w ≡ true)
    (keep : weak (f w) ≡ true) where
  pub taken : (xs : List A) → find? weak xs ≡ some w → IsTaken strong weak f xs w
  unfolding find? change_first remove_first
  taken [] h = absurd (cc)
  taken (x ∷ xs) h = elim (Bool-cases (weak x)) [
    | inl pass ↦
        let e : x ≡ w = some_inj (rw (pass, find?) at h) in
        record {
          rest = xs;
          changed = f w ∷ xs;
          change = rw (e, hit) refl;
          remove = rw keep refl;
          cut = subst (λ z. Cut weak (x ∷ xs) z xs) e (Cut.front x xs pass);
          found = rw (e, hit) refl;
        }
    | inr fail ↦
        let t = taken xs (rw (fail, find?) at h) in
        record {
          rest = x ∷ t.rest;
          changed = x ∷ t.changed;
          change = rw (imp x fail, t.change) refl;
          remove = rw (fail, t.remove) refl;
          cut = Cut.later x w xs t.rest fail t.cut;
          found = rw (imp x fail) t.found;
        }
  ]

module _ {ℓ} {A : Type ℓ} {test : A → Bool} where
  pub Cut-remove_first :
      {xs : List A} {y : A} {rest : List A}
      → Cut test xs y rest
      → remove_first test xs ≡ some (y, rest)
  unfolding remove_first
  Cut-remove_first (Cut.front x xs e) = rw e refl
  Cut-remove_first (Cut.later x y xs rest e c) = rw (e, Cut-remove_first c) refl

module _ {ℓ} {A : Type ℓ} (test : A → Bool) where
  pub find?-test : (xs : List A) (y : A) → find? test xs ≡ some y → test y ≡ true
  unfolding find?
  find?-test [] y h = absurd (cc)
  find?-test (x ∷ xs) y h = elim (Bool-cases (test x)) [
    | inl pass ↦ subst (λ z. test z ≡ true) (some_inj (rw pass at h)) pass
    | inr fail ↦ find?-test xs y (rw fail at h)
  ]
