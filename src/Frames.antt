-- ===== src/Frames.antt =====
-- kernel/src/memory/cow.rs: how many address spaces share a frame. A frame is its physical address;
-- the counts are an array of bytes.
pub mod Owners
use rust_so_kernel.Prelude.{
  ℕ, ◌+◌, ◌-◌, ◌/◌, Bool, true, false, not, ◌&&◌, min, ◌==◌, ltb, if◌then◌else◌, update,
}

abbrev pub max_frames : ℕ
max_frames = 131072

abbrev pub frame_idx : ℕ → ℕ
frame_idx frame = frame / 4096

-- The counts at start-up.
unfoldable pub no_refs : ℕ → ℕ
no_refs = λ _. 0

unfoldable pub set_ref : ℕ → ℕ → (ℕ → ℕ) → ℕ → ℕ
set_ref frame count refs =
    let idx = frame_idx frame in if ltb idx max_frames then update refs idx count else refs

-- `saturating_add(1)` on a byte.
unfoldable pub inc_ref : ℕ → (ℕ → ℕ) → ℕ → ℕ
inc_ref frame refs =
    let idx = frame_idx frame in
    if ltb idx max_frames then update refs idx (min (refs idx + 1) 255) else refs

unfoldable pub dec_ref : ℕ → (ℕ → ℕ) → ℕ × (ℕ → ℕ)
dec_ref frame refs =
    let idx = frame_idx frame in
    if ltb idx max_frames
    then (let count = refs idx - 1 in (count, update refs idx count))
    else (0, refs)

unfoldable pub get_ref : ℕ → (ℕ → ℕ) → ℕ
get_ref frame refs = let idx = frame_idx frame in if ltb idx max_frames then refs idx else 0

-- `is_zero_frame`, of the address stored at boot.
unfoldable pub is_zero_frame : ℕ → ℕ → Bool
is_zero_frame zero_phys frame = not (zero_phys == 0) && (frame == zero_phys)
