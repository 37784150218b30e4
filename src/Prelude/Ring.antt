-- ===== src/Prelude/Ring.antt =====
-- Ring buffers: the part of an array that starts at an index and wraps round, the loop that reads
-- it and the loop that writes it. `wrap` is `% CAPACITY`, of which only two facts are used.
use rust_so_kernel.Prelude.Tests.{ne→==, ==_refl}
use rust_so_kernel.Prelude.Lists.{length, take, drop}
use rust_so_kernel.Prelude.Maps.{update}
use Prim.Native.Nat.{ℕ, zero, suc, ◌+◌, ◌-◌, ◌<◌, ◌≤◌}
use mathlib.Core.Path.{◌≡◌, refl, ap, ap₂, ◌∙◌}
use mathlib.Core.Logic.{◌≢◌}
use mathlib.Core.List.{List, [], ◌∷◌, ◌++◌}
use native.Mathlib.Omega.{arith}

-- What a ring needs of `i % capacity`.
pub record Wraps (capacity : ℕ) (wrap : ℕ → ℕ) : Type 0 where
  pub absorbs : (start i : ℕ) → wrap (wrap start + i) ≡ wrap (start + i)
  pub apart : (start i j : ℕ) → i < j → j < capacity → wrap (start + i) ≢ wrap (start + j)

module _ {ℓ} {A : Type ℓ} (wrap : ℕ → ℕ) where
  -- `for i in 0..n { out[i] = cells[(start + i) % CAPACITY] }`
  unfoldable pub window : (ℕ → A) → ℕ → ℕ → List A
  window cells start zero = []
  window cells start (suc n) = cells (wrap start) ∷ window cells (start + 1) n

  -- `for i in 0..n { cells[(start + i) % CAPACITY] = xs[i] }`
  unfoldable pub fill : (ℕ → A) → ℕ → List A → ℕ → A
  fill cells start [] = cells
  fill cells start (x ∷ xs) = fill (update cells (wrap start) x) (start + 1) xs

  pub length-window : (cells : ℕ → A) (start n : ℕ) → length (window cells start n) ≡ n
  unfolding window
  length-window cells start zero = refl
  length-window cells start (suc n) = ap suc (length-window cells (start + 1) n)

  window_at : (cells : ℕ → A) (s t m n : ℕ) → s ≡ t → m ≡ n → window cells s m ≡ window cells t n
  window_at cells s t m n e f = rw (e, f)

  fill_at : (cells : ℕ → A) (s t : ℕ) (xs : List A) → s ≡ t → fill cells s xs ≡ fill cells t xs
  fill_at cells s t xs e = rw e

  pub take-window :
      (cells : ℕ → A) (start m n : ℕ) → m ≤ n → take m (window cells start n) ≡ window cells start m
  unfolding window
  take-window cells start zero n h = refl
  take-window cells start (suc m) zero h = absurd (omega arith)
  take-window cells start (suc m) (suc n) h =
      ap (◌∷◌ (cells (wrap start))) (take-window cells (start + 1) m n (omega arith))

  pub drop-window :
      (cells : ℕ → A) (start m n : ℕ)
      → m ≤ n
      → drop m (window cells start n) ≡ window cells (start + m) (n - m)
  unfolding window
  drop-window cells start zero n h =
      window_at cells start (start + 0) n (n - 0) (omega arith) (omega arith)
  drop-window cells start (suc m) zero h = absurd (omega arith)
  drop-window cells start (suc m) (suc n) h =
      drop-window cells (start + 1) m n (omega arith)
      ∙ window_at cells (start + 1 + m) (start + suc m) (n - m) (suc n - suc m) (omega arith)
          (omega arith)

  module _ {capacity : ℕ} (ring : Wraps capacity wrap) where
    -- A start beyond the array is as good as its remainder.
    window-wrap :
        (cells : ℕ → A) (start i n : ℕ)
        → window cells (wrap start + i) n ≡ window cells (start + i) n
    unfolding window
    window-wrap cells start i zero = refl
    window-wrap cells start i (suc n) = ap₂ ◌∷◌ (ap cells (ring.absorbs start i)) (
        window_at cells (wrap start + i + 1) (wrap start + (i + 1)) n n (omega arith) refl
        ∙ window-wrap cells start (i + 1) n
        ∙ window_at cells (start + (i + 1)) (start + i + 1) n n (omega arith) refl)

    fill-wrap :
        (cells : ℕ → A) (start i : ℕ) (xs : List A)
        → fill cells (wrap start + i) xs ≡ fill cells (start + i) xs
    unfolding fill
    fill-wrap cells start i [] = refl
    fill-wrap cells start i (x ∷ xs) = rw (ring.absorbs start i) (
        fill_at (update cells (wrap (start + i)) x) (wrap start + i + 1) (wrap start + (i + 1)) xs
          (omega arith)
        ∙ fill-wrap (update cells (wrap (start + i)) x) start (i + 1) xs
        ∙ fill_at (update cells (wrap (start + i)) x) (start + (i + 1)) (start + i + 1) xs
            (omega arith))

    pub window-wrapped :
        (cells : ℕ → A) (start n : ℕ) → window cells (wrap start) n ≡ window cells start n
    window-wrapped cells start n =
        window_at cells (wrap start) (wrap start + 0) n n (omega arith) refl
        ∙ window-wrap cells start 0 n
        ∙ window_at cells (start + 0) start n n (omega arith) refl

    pub fill-wrapped :
        (cells : ℕ → A) (start : ℕ) (xs : List A) → fill cells (wrap start) xs ≡ fill cells start xs
    fill-wrapped cells start xs =
        fill_at cells (wrap start) (wrap start + 0) xs (omega arith)
        ∙ fill-wrap cells start 0 xs
        ∙ fill_at cells (start + 0) start xs (omega arith)

    -- Cells before the part that is written keep what they hold.
    fill_outside :
        (cells : ℕ → A) (start i j : ℕ) (xs : List A)
        → i < j
        → j + length xs ≤ capacity
        → fill cells (start + j) xs (wrap (start + i)) ≡ cells (wrap (start + i))
    unfolding fill
    fill_outside cells start i j [] lt le = refl
    fill_outside cells start i j (x ∷ xs) lt le =
        let cells' = update cells (wrap (start + j)) x in
        ap (λ f. f (wrap (start + i)))
          (fill_at cells' (start + j + 1) (start + (j + 1)) xs (omega arith))
        ∙ fill_outside cells' start i (j + 1) xs (omega arith) (omega arith)
        ∙ rw (ne→== (wrap (start + i)) (wrap (start + j)) (ring.apart start i j lt (omega arith)))

    -- The window after a write just behind it.
    window-fill_before :
        (cells : ℕ → A) (start i n j : ℕ) (xs : List A)
        → i + n ≤ j
        → j + length xs ≤ capacity
        → window (fill cells (start + j) xs) (start + i) n ≡ window cells (start + i) n
    unfolding window
    window-fill_before cells start i zero j xs lt le = refl
    window-fill_before cells start i (suc n) j xs lt le =
        let cells' = fill cells (start + j) xs in
        ap₂ ◌∷◌ (fill_outside cells start i j xs (omega arith) le) (
          window_at cells' (start + i + 1) (start + (i + 1)) n n (omega arith) refl
          ∙ window-fill_before cells start (i + 1) n j xs (omega arith) le
          ∙ window_at cells (start + (i + 1)) (start + i + 1) n n (omega arith) refl)

    -- What is written is read back.
    window-fill_self :
        (cells : ℕ → A) (start j : ℕ) (xs : List A)
        → j + length xs ≤ capacity
        → window (fill cells (start + j) xs) (start + j) (length xs) ≡ xs
    unfolding window fill
    window-fill_self cells start j [] le = refl
    window-fill_self cells start j (x ∷ xs) le =
        let cells' = update cells (wrap (start + j)) x in
        let moved : fill cells' (start + j + 1) xs ≡ fill cells' (start + (j + 1)) xs =
          fill_at cells' (start + j + 1) (start + (j + 1)) xs (omega arith) in
        ap (λ c. window c (start + j) (suc (length xs))) moved
        ∙ (ap₂ ◌∷◌
            (fill_outside cells' start j (j + 1) xs (omega arith) (omega arith)
              ∙ rw (==_refl (wrap (start + j))))
            (window_at (fill cells' (start + (j + 1)) xs) (start + j + 1) (start + (j + 1))
                (length xs) (length xs) (omega arith) refl
              ∙ window-fill_self cells' start (j + 1) xs (omega arith)))

    window-add :
        (cells : ℕ → A) (start m n : ℕ)
        → window cells start (m + n) ≡ window cells start m ++ window cells (start + m) n
    unfolding window
    window-add cells start zero n =
        window_at cells start (start + 0) (0 + n) n (omega arith) (omega arith)
    window-add cells start (suc m) n =
        window_at cells start start (suc m + n) (suc (m + n)) refl (omega arith)
        ∙ ap (◌∷◌ (cells (wrap start))) (
            window-add cells (start + 1) m n
            ∙ ap (λ l. window cells (start + 1) m ++ l)
                (window_at cells (start + 1 + m) (start + suc m) n n (omega arith) refl))

    -- Writing behind the window makes it longer by what is written.
    pub window-fill :
        (cells : ℕ → A) (start n : ℕ) (xs : List A)
        → n + length xs ≤ capacity
        → window (fill cells (start + n) xs) start (n + length xs) ≡ window cells start n ++ xs
    window-fill cells start n xs le =
        let cells' = fill cells (start + n) xs in
        let same : window cells' start n ≡ window cells start n =
          window_at cells' start (start + 0) n n (omega arith) refl
          ∙ window-fill_before cells start 0 n n xs (omega arith) le
          ∙ window_at cells (start + 0) start n n (omega arith) refl in
        window-add cells' start n (length xs) ∙ ap₂ ◌++◌ same (window-fill_self cells start n xs le)
