-- ===== src/Keys/Capacities.antt =====
-- The two capacities of the key rings, and what any history of a ring returns.
use rust_so_kernel.Prelude.{ℕ, ◌%◌, Bool, ◌≡◌, sym, refl, ap₂, arith, Option, List, [], ◌∷◌, window}
use rust_so_kernel.Keys.{KeyBuffer, RawKeyEvent, new_keys, push_key, pop_key}
use rust_so_kernel.Keys.Queue.{IsCapacity, Holds, accept, pop_front, push_key-Holds, pop_key-Holds}

-- `CAPACITY` and `RAW_CAPACITY`
abbrev pub capacity : ℕ
capacity = 1024

abbrev pub raw_capacity : ℕ
raw_capacity = 256

pub chars-IsCapacity : IsCapacity capacity (λ i. i % 1024)
chars-IsCapacity = record {
  positive = omega arith;
  ring = record { absorbs = λ start i. omega arith; apart = λ start i j lt le e. omega arith };
  below = λ i. omega arith;
  within = λ i lt. omega arith;
  around = λ i lt. omega arith;
}

pub raw-IsCapacity : IsCapacity raw_capacity (λ i. i % 256)
raw-IsCapacity = record {
  positive = omega arith;
  ring = record { absorbs = λ start i. omega arith; apart = λ start i j lt le e. omega arith };
  below = λ i. omega arith;
  within = λ i lt. omega arith;
  around = λ i lt. omega arith;
}

-- `RawKeyBuffer::push` and `RawKeyBuffer::pop`
unfoldable pub push_raw : ℕ → Bool → KeyBuffer RawKeyEvent → KeyBuffer RawKeyEvent
unfolding push_key
push_raw keycode pressed b =
    push_key (λ i. i % raw_capacity) (record { keycode = keycode; pressed = pressed }) b

unfoldable pub pop_raw : KeyBuffer RawKeyEvent → Option RawKeyEvent × KeyBuffer RawKeyEvent
unfolding pop_key
pop_raw b = pop_key (λ i. i % raw_capacity) [] b

-- A key of the interrupt handler, or a pop during which it pushes.
pub data KeyOp (A : Type 0) : Type 0 where
  pressed : A → KeyOp A
  reads : List A → KeyOp A

-- What the pops of a history return.
unfoldable pub run_keys : {A : Type 0} → (ℕ → ℕ) → List (KeyOp A) → KeyBuffer A → List (Option A)
unfolding push_key pop_key
run_keys wrap [] b = []
run_keys wrap (pressed c ∷ ops) b = run_keys wrap ops (push_key wrap c b)
run_keys wrap (reads cs ∷ ops) b = let (key, b') = pop_key wrap cs b in key ∷ run_keys wrap ops b'

unfoldable pub run_bounded : {A : Type 0} → ℕ → List (KeyOp A) → List A → List (Option A)
unfolding accept pop_front
run_bounded n [] q = []
run_bounded n (pressed c ∷ ops) q = run_bounded n ops (accept n c q)
run_bounded n (reads cs ∷ ops) q = let (key, q') = pop_front n cs q in key ∷ run_bounded n ops q'

module _ {A : Type 0} (n : ℕ) (wrap : ℕ → ℕ) (cap : IsCapacity n wrap) where
  run_keys-run_bounded :
      (ops : List (KeyOp A)) (b : KeyBuffer A) (q : List A)
      → Holds wrap n b q
      → run_keys wrap ops b ≡ run_bounded n ops q
  unfolding run_keys run_bounded
  run_keys-run_bounded [] b q h = refl
  run_keys-run_bounded (pressed c ∷ ops) b q h =
      run_keys-run_bounded ops (push_key wrap c b) (accept n c q)
        (push_key-Holds wrap n cap c b q h)
  run_keys-run_bounded (reads cs ∷ ops) b q h =
      let (same, h') = pop_key-Holds wrap n cap cs b q h in
      ap₂ ◌∷◌ same (run_keys-run_bounded ops (pop_key wrap cs b).1 (pop_front n cs q).1 h')

-- In any history of a key ring from its start, with interrupts in the middle of its pops, the pops
-- return what those of a first-in first-out queue return that drops a key when it holds one less
-- than the capacity.
pub new_keys-run_bounded :
    {A : Type 0} (n : ℕ) (wrap : ℕ → ℕ)
    → IsCapacity n wrap
    → (ops : List (KeyOp A)) → run_keys wrap ops new_keys ≡ run_bounded n ops []
unfolding new_keys window
new_keys-run_bounded n wrap cap ops = run_keys-run_bounded n wrap cap ops new_keys [] (record {
  read_below = cap.positive;
  write_at = sym (cap.within 0 cap.positive);
  room = cap.positive;
  keys = refl;
})
