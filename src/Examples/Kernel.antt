-- ===== src/Examples/Kernel.antt =====
-- Key rings and frame counts at concrete inputs.
use rust_so_kernel.Prelude.{
  ℕ, ◌%◌, ◌≡◌, refl, none, some, List, [], ◌∷◌, arith, ◌==◌, if◌then◌else◌, update, window,
}
use rust_so_kernel.Keys.{KeyBuffer, new_keys}
use rust_so_kernel.Keys.Queue.{Holds, accept, accept_all, pop_front}
use rust_so_kernel.Keys.Capacities.{
  KeyOp, pressed, reads, run_keys, run_bounded, chars-IsCapacity, new_keys-run_bounded,
}
use rust_so_kernel.Frames.{no_refs, set_ref, inc_ref, dec_ref, get_ref}
use rust_so_kernel.Frames.Owners.{Reached, dec_ref-get_ref}

abbrev typing : List (KeyOp ℕ)
typing = pressed 104 ∷ reads (105 ∷ []) ∷ reads [] ∷ reads [] ∷ []

new_keys-run_bounded_example : run_keys (λ i. i % 1024) typing new_keys ≡ run_bounded 1024 typing []
new_keys-run_bounded_example = new_keys-run_bounded 1024 (λ i. i % 1024) chars-IsCapacity typing

keys_in_order : run_bounded 1024 typing [] ≡ some 104 ∷ some 105 ∷ none ∷ []
unfolding run_bounded accept accept_all pop_front
keys_in_order = refl

-- A raw ring whose write index has wrapped round.
abbrev wrapped_keys : KeyBuffer ℕ
wrapped_keys = record { cells = λ i. if i == 255 then some 30 else none; read = 255; write = 0 }

wrapped_keys-Holds : Holds (λ i. i % 256) 256 wrapped_keys (30 ∷ [])
unfolding window
wrapped_keys-Holds = record {
  read_below = omega arith;
  write_at = refl;
  room = omega arith;
  keys = refl;
}

interrupted : pop_front {A = ℕ} 256 (31 ∷ []) (30 ∷ []) ≡ (some 30, 31 ∷ [])
unfolding pop_front accept_all accept
interrupted = refl

-- A frame that a parent allocates and a child shares.
abbrev shared_refs : ℕ → ℕ
shared_refs = inc_ref 0x3000 (set_ref 0x3000 1 no_refs)

abbrev shared_owners : ℕ → ℕ
shared_owners = update (update (λ _. 0) 3 1) 3 2

shared_reached : Reached shared_refs shared_owners
unfolding no_refs
shared_reached =
    Reached.shares 0x3000 (set_ref 0x3000 1 no_refs) (update (λ _. 0) 3 1)
      (Reached.allocates 0x3000 no_refs (λ _. 0) Reached.boot (omega arith) refl) (omega arith)
      (omega arith)

dec_ref-get_ref_example :
    (get_ref 0x3000 shared_refs ≡ 2)
    × ((dec_ref 0x3000 shared_refs).0 ≡ 1)
    × (get_ref 0x3000 (dec_ref 0x3000 shared_refs).1 ≡ 1)
dec_ref-get_ref_example =
    dec_ref-get_ref 0x3000 shared_refs shared_owners shared_reached (omega arith)
