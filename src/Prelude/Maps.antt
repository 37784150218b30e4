-- ===== src/Prelude/Maps.antt =====
-- Arrays indexed below a bound, as functions from their indices: writes, and sums over a range.
use Prim.Native.Nat.{ℕ, zero, suc, ◌+◌, ◌<◌}
use mathlib.Core.Path.{◌≡◌, refl}
use mathlib.Core.Logic.{◌≢◌}
use native.Mathlib.Omega.{arith}
use native.Mathlib.Decide.{ℕ_discrete}
use rust_so_kernel.Prelude.Tests.{◌==◌, if◌then◌else◌}

-- `a[k] = v`
abbrev pub update {ℓ} : {A : Type ℓ} → (ℕ → A) → ℕ → A → ℕ → A
update f k v j = if j == k then v else f j

-- f 0 + … + f (n - 1)
unfoldable pub sum_below : ℕ → (ℕ → ℕ) → ℕ
sum_below zero f = 0
sum_below (suc n) f = sum_below n f + f n

pub sum_below_cong :
    (n : ℕ) (f g : ℕ → ℕ) → ((j : ℕ) → j < n → f j ≡ g j) → sum_below n f ≡ sum_below n g
unfolding sum_below
sum_below_cong zero f g h = refl
sum_below_cong (suc n) f g h =
    omega (arith, sum_below_cong n f g (λ j lt. h j (omega arith)), h n (omega arith))

-- Changing one entry of a sum changes the sum by as much.
pub sum_below_change :
    (n k : ℕ) (f g : ℕ → ℕ)
    → k < n
    → ((j : ℕ) → j ≢ k → f j ≡ g j)
    → sum_below n f + g k ≡ sum_below n g + f k
unfolding sum_below
sum_below_change zero k f g lt h = absurd (omega arith)
sum_below_change (suc n) k f g lt h = elim (ℕ_discrete k n) [
  | yes e ↦ rw e (omega (arith, sum_below_cong n f g (λ j l. h j (omega arith))))
  | no ne ↦ omega (arith, sum_below_change n k f g (omega arith) h, h n (omega arith))
]
