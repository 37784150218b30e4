-- ===== src/Files/Table.antt =====
-- Which descriptor a new handle gets.
use rust_so_kernel.Prelude.{
  ℕ, zero, suc, ◌+◌, ◌-◌, ◌≡◌, ◌≢◌, ◌≤◌, ◌<◌, sym, refl, arith, Option, none, some, Option-cases,
  inl, inr, update, ℕ_discrete, subst,
}
use rust_so_kernel.Pipe.Ends.{FileResult, ok, err, invalid_argument}
use rust_so_kernel.Files.{get, free_from, allocate, dup, max_files}

module _ {H : Type 0} where
  -- The search of the slots from `start` up to `stop`.
  pub data Searched (files : ℕ → Option H) (start stop : ℕ) : Option ℕ → Type 0 where
    taken : ((j : ℕ) → start ≤ j → j < stop → files j ≢ none) → Searched files start stop none
    lowest :
        (i : ℕ)
        → start ≤ i
        → i < stop
        → files i ≡ none
        → ((j : ℕ) → start ≤ j → j < i → files j ≢ none)
        → Searched files start stop (some i)

  Searched-later :
      (files : ℕ → Option H) (start stop : ℕ) (o : Option ℕ)
      → files start ≢ none
      → Searched files (start + 1) stop o
      → Searched files start stop o
  Searched-later files start stop none used (Searched.taken all) = Searched.taken (λ j le lt.
      elim (ℕ_discrete j start) [
        | yes e ↦ λ f. used (subst (λ k. files k ≡ none) e f)
        | no ne ↦ all j (omega arith) lt
      ])
  Searched-later files start stop (some n) used (Searched.lowest i le lt free before) =
      Searched.lowest i (omega arith) lt free (λ j le' lt'. elim (ℕ_discrete j start) [
        | yes e ↦ λ f. used (subst (λ k. files k ≡ none) e f)
        | no ne ↦ before j (omega arith) lt'
      ])

  free_from-Searched :
      (n start stop : ℕ) (files : ℕ → Option H)
      → start + n ≡ stop
      → Searched files start stop (free_from n start files)
  unfolding free_from
  free_from-Searched zero start stop files e = Searched.taken (λ j le lt. absurd (omega arith))
  free_from-Searched (suc n) start stop files e = elim (Option-cases (files start)) [
    | inl free ↦
        rw (free_from, free)
          (Searched.lowest start (omega arith) (omega arith) free (λ j le lt. absurd (omega arith)))
    | inr (h, used) ↦
        rw (free_from, used)
          (Searched-later files start stop _ (λ f. let g = rw used at f in cc)
            (free_from-Searched n (start + 1) stop files (omega arith)))
  ]

  -- Where a handle was put among the slots from `start` up to the last.
  pub data Placed (h : H) (files : ℕ → Option H) (start : ℕ)
      : FileResult ℕ → (ℕ → Option H) → Type 0 where
    full :
        ((j : ℕ) → start ≤ j → j < max_files → files j ≢ none)
        → Placed h files start (err invalid_argument) files
    placed :
        (i : ℕ)
        → start ≤ i
        → i < max_files
        → files i ≡ none
        → ((j : ℕ) → start ≤ j → j < i → files j ≢ none)
        → Placed h files start (ok i) (update files i (some h))

  Searched-Placed :
      (h : H) (files : ℕ → Option H) (start n : ℕ) (o : Option ℕ)
      → max_files ≤ start + n
      → ((j : ℕ) → start ≤ j → j < start + n → j < max_files)
      → Searched files start (start + n) o
      → (r : FileResult ℕ) (files' : ℕ → Option H)
      → ◌≡◌ {A = FileResult ℕ × (ℕ → Option H)}
          (r, files')
          (elim o [
            | none ↦ (err invalid_argument, files)
            | some i ↦ (ok i, update files i (some h))
          ])
      → Placed h files start r files'
  Searched-Placed h files start n none le inside (Searched.taken all) r files' e =
      subst (λ (t : FileResult ℕ × (ℕ → Option H)). Placed h files start t.0 t.1) (sym e)
        (Placed.full (λ j ge lt. all j ge (omega arith)))
  Searched-Placed h files start n (some m) le inside (Searched.lowest i ge lt free before) r files'
        e =
      subst (λ (t : FileResult ℕ × (ℕ → Option H)). Placed h files start t.0 t.1) (sym e)
        (Placed.placed i ge (inside i ge lt) free before)

  -- A new handle gets the lowest free descriptor, and is refused only when all sixteen are taken.
  pub allocate-Placed :
      (h : H) (files : ℕ → Option H) → Placed h files 0 (allocate h files).0 (allocate h files).1
  unfolding allocate
  allocate-Placed h files =
      Searched-Placed h files 0 16 (free_from 16 0 files) (omega arith) (λ j ge lt. omega arith)
        (free_from-Searched 16 0 16 files refl) (allocate h files).0 (allocate h files).1 refl

  -- `dup` of an open descriptor whose handle can be cloned puts the clone at the lowest free
  -- descriptor from `min_fd` on, leaving the others, and is refused, changing nothing, only when all
  -- of these are taken.
  pub dup-Placed :
      (dup_handle : H → Option H) (close_handle : H → FileResult Unit) (fd min_fd : ℕ)
      (files : ℕ → Option H) (h cloned : H)
      → get fd files ≡ ok h
      → dup_handle h ≡ some cloned
      → Placed cloned files min_fd
          (dup dup_handle close_handle fd min_fd files).0
          (dup dup_handle close_handle fd min_fd files).1
  unfolding dup
  dup-Placed dup_handle close_handle fd min_fd files h cloned open_fd clones =
      Searched-Placed cloned files min_fd (16 - min_fd) (free_from (16 - min_fd) min_fd files)
        (omega arith) (λ j ge lt. omega arith)
        (free_from-Searched (16 - min_fd) min_fd (min_fd + (16 - min_fd)) files refl)
        (dup dup_handle close_handle fd min_fd files).0
        (dup dup_handle close_handle fd min_fd files).1 (rw (dup, open_fd, clones) refl)
