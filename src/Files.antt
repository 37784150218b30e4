-- ===== src/Files.antt =====
-- kernel/src/process/file.rs: seeking, and the table of open files. A handle is a value of a type
-- `H`; its `dup` and `close` are parameters, since every kind of file has its own.
pub mod Table
use rust_so_kernel.Prelude.{
  ℕ, zero, suc, ◌+◌, ◌-◌, ◌%◌, ◌^◌, Option, none, some, Bool, true, false, ◌&&◌, not, ◌==◌, ltb,
  leb, if◌then◌else◌, update,
}
use rust_so_kernel.Pipe.Ends.{
  FileError, FileResult, ok, err, invalid_argument, not_supported, bad_file_descriptor,
}

-- Whether a 64-bit pattern is negative as an `i64`.
abbrev pub is_negative : ℕ → Bool
is_negative a = leb (2 ^ 63) a

-- `checked_add` of two `i64`s by their patterns: `none` where the sum's sign is not theirs.
unfoldable pub checked_add : ℕ → ℕ → Option ℕ
checked_add a b =
    let sum = (a + b) % 2 ^ 64 in
    if is_negative a
    then (if is_negative b && not (is_negative sum) then none else some sum)
    else if not (is_negative b) && is_negative sum
    then none
    else some sum

unfoldable pub seek_base : ℕ → ℕ → ℕ → Option ℕ
seek_base current size whence =
    if whence == 0
    then some 0
    else if whence == 1
    then some current
    else if whence == 2
    then some size
    else none

unfoldable pub compute_seek : ℕ → ℕ → ℕ → ℕ → FileResult ℕ
unfolding checked_add seek_base
compute_seek current size offset whence = elim (seek_base current size whence) [
  | none ↦ err invalid_argument
  | some base ↦ (elim (checked_add base offset) [
    | none ↦ err invalid_argument
    | some new_pos ↦ if is_negative new_pos then err invalid_argument else ok new_pos
  ])
]

abbrev pub max_files : ℕ
max_files = 16

module _ {H : Type 0} where
  -- `FileDescriptorTable::new`
  unfoldable pub no_files : ℕ → Option H
  no_files = λ _. none

  unfoldable pub get : ℕ → (ℕ → Option H) → FileResult H
  get fd files =
      if leb max_files fd
      then err bad_file_descriptor
      else (elim (files fd) [ none ↦ err bad_file_descriptor | some h ↦ ok h ])

  -- The first free slot of `i..i + n`.
  unfoldable pub free_from : ℕ → ℕ → (ℕ → Option H) → Option ℕ
  free_from zero i files = none
  free_from (suc n) i files =
      let rest = free_from n (i + 1) files in elim (files i) [ none ↦ some i | some _ ↦ rest ]

  unfoldable pub allocate : H → (ℕ → Option H) → FileResult ℕ × (ℕ → Option H)
  unfolding free_from
  allocate h files = elim (free_from max_files 0 files) [
    | none ↦ (err invalid_argument, files)
    | some i ↦ (ok i, update files i (some h))
  ]

  module _ (dup_handle : H → Option H) (close_handle : H → FileResult Unit) where
    unfoldable pub dup : ℕ → ℕ → (ℕ → Option H) → FileResult ℕ × (ℕ → Option H)
    unfolding get free_from
    dup fd min_fd files = elim (get fd files) [
      | err e ↦ (err e, files)
      | ok h ↦ (elim (dup_handle h) [
        | none ↦ (err not_supported, files)
        | some cloned ↦ (elim (free_from (max_files - min_fd) min_fd files) [
          | none ↦ (err invalid_argument, files)
          | some i ↦ (ok i, update files i (some cloned))
        ])
      ])
    ]

    -- What is closed on the way is closed whatever its `close` answers.
    unfoldable pub dup2 : ℕ → ℕ → (ℕ → Option H) → FileResult ℕ × (ℕ → Option H)
    unfolding get
    dup2 oldfd newfd files =
        if leb max_files newfd
        then (err bad_file_descriptor, files)
        else if oldfd == newfd
        then (elim (get oldfd files) [ err e ↦ (err e, files) | ok h ↦ (ok newfd, files) ])
        else (elim (get oldfd files) [
          | err e ↦ (err e, files)
          | ok h ↦ (elim (dup_handle h) [
            | none ↦ (err not_supported, files)
            | some cloned ↦ (ok newfd, update files newfd (some cloned))
          ])
        ])

    unfoldable pub close : ℕ → (ℕ → Option H) → FileResult Unit × (ℕ → Option H)
    close fd files =
        if leb max_files fd then (err bad_file_descriptor, files) else (elim (files fd) [
          | none ↦ (ok tt, files)
          | some h ↦ (close_handle h, update files fd none)
        ])
