-- ===== src/Keys/Queue.antt =====
-- The key rings against a queue of at most one key less than the capacity.
use rust_so_kernel.Prelude.{
  ℕ, ◌+◌, ◌≡◌, ◌≢◌, ◌<◌, sym, ◌∙◌, refl, ap, ap₂, arith, Option, none, some, true, false, List, [],
  ◌∷◌, ◌++◌, map, Bool-cases, inl, inr, ◌==◌, ==_refl, ne→==, ltb, ltb→lt, if◌then◌else◌, length,
  length-append, update, window, fill, Wraps, window-fill, window-wrapped, subst,
}
use rust_so_kernel.Keys.{KeyBuffer, push_key, push_keys, pop_key}

-- What the rings need of their capacity.
pub record IsCapacity (capacity : ℕ) (wrap : ℕ → ℕ) : Type 0 where
  pub positive : 0 < capacity
  pub ring : Wraps capacity wrap
  pub below : (i : ℕ) → wrap i < capacity
  pub within : (i : ℕ) → i < capacity → wrap i ≡ i
  pub around : (i : ℕ) → i < capacity → wrap (i + capacity) ≡ i

-- The queue behind the interrupt handler: it drops a key when no place is left.
unfoldable pub accept {ℓ} : {A : Type ℓ} → ℕ → A → List A → List A
accept capacity c q = if ltb (length q + 1) capacity then q ++ c ∷ [] else q

unfoldable pub accept_all {ℓ} : {A : Type ℓ} → ℕ → List A → List A → List A
unfolding accept
accept_all capacity [] q = q
accept_all capacity (c ∷ cs) q = accept_all capacity cs (accept capacity c q)

-- The queue without its front.
abbrev pub tail {ℓ} : {A : Type ℓ} → List A → List A
tail [] = []
tail (c ∷ q) = q

-- What a pop returns and leaves of a queue while the interrupt handler pushes `cs`.
unfoldable pub pop_front {ℓ} : {A : Type ℓ} → ℕ → List A → List A → Option A × List A
unfolding accept_all
pop_front capacity cs [] = (none, accept_all capacity cs [])
pop_front capacity cs (c ∷ q) = (some c, tail (accept_all capacity cs (c ∷ q)))

accept_all-front {ℓ} :
    {A : Type ℓ} (capacity : ℕ) (c : A) (cs q : List A)
    → accept_all capacity cs (c ∷ q) ≡ c ∷ tail (accept_all capacity cs (c ∷ q))
unfolding accept_all accept
accept_all-front capacity c [] q = refl
accept_all-front capacity c (d ∷ cs) q = elim (Bool-cases (ltb (length (c ∷ q) + 1) capacity)) [
  | inl room ↦ rw (accept_all, accept, room) (accept_all-front capacity c cs (q ++ d ∷ []))
  | inr full ↦ rw (accept_all, accept, full) (accept_all-front capacity c cs q)
]

module _ {A : Type 0} (wrap : ℕ → ℕ) where
  -- The keys in the ring, the oldest first.
  pub record Holds (capacity : ℕ) (b : KeyBuffer A) (q : List A) : Type 0 where
    pub read_below : b.read < capacity
    pub write_at : b.write ≡ wrap (b.read + length q)
    pub room : length q < capacity
    pub keys : window wrap b.cells b.read (length q) ≡ map some q

  map-append : (xs ys : List A) → map some (xs ++ ys) ≡ map some xs ++ map some ys
  map-append [] ys = refl
  map-append (x ∷ xs) ys = ap (◌∷◌ (some x)) (map-append xs ys)

  module _ (capacity : ℕ) (cap : IsCapacity capacity wrap) where
    next_write :
        (b : KeyBuffer A) (q : List A)
        → Holds capacity b q
        → wrap (b.write + 1) ≡ wrap (b.read + (length q + 1))
    next_write b q h =
        let e : b.read + length q + 1 ≡ b.read + (length q + 1) = omega arith in
        ap (λ w. wrap (w + 1)) h.write_at ∙ cap.ring.absorbs (b.read + length q) 1 ∙ ap wrap e

    at_read : (b : KeyBuffer A) (q : List A) → Holds capacity b q → wrap (b.read + 0) ≡ b.read
    at_read b q h =
        let e : b.read + 0 ≡ b.read = omega arith in ap wrap e ∙ cap.within b.read h.read_below

    push_key_room :
        (c : A) (b : KeyBuffer A) (q : List A)
        → Holds capacity b q
        → length q + 1 < capacity
        → (wrap (b.write + 1) == b.read) ≡ false
    push_key_room c b q h lt = ne→== (wrap (b.write + 1)) b.read (λ e.
        cap.ring.apart b.read 0 (length q + 1) (omega arith) lt
          (at_read b q h ∙ sym e ∙ next_write b q h))

    push_key_full :
        (b : KeyBuffer A) (q : List A)
        → Holds capacity b q
        → length q + 1 ≡ capacity
        → (wrap (b.write + 1) == b.read) ≡ true
    push_key_full b q h full =
        let meets : wrap (b.write + 1) ≡ b.read =
          next_write b q h ∙ ap (λ k. wrap (b.read + k)) full ∙ cap.around b.read h.read_below in
        rw meets (==_refl b.read)

    pub push_key-Holds :
        (c : A) (b : KeyBuffer A) (q : List A)
        → Holds capacity b q
        → Holds capacity (push_key wrap c b) (accept capacity c q)
    unfolding push_key accept fill
    push_key-Holds c b q h = elim (Bool-cases (ltb (length q + 1) capacity)) [
      | inl room ↦
          let lt = ltb→lt (length q + 1) capacity room in
          let size : length (q ++ c ∷ []) ≡ length q + 1 = length-append q (c ∷ []) in
          rw (push_key, accept, room, push_key_room c b q h lt)
            (record {
              read_below = h.read_below;
              write_at = next_write b q h ∙ ap (λ k. wrap (b.read + k)) (sym size);
              room = omega (arith, size);
              keys =
                  ap₂ (λ w k. window wrap (update b.cells w (some c)) b.read k) h.write_at size
                  ∙ window-fill wrap cap.ring b.cells b.read (length q) (some c ∷ []) (omega arith)
                  ∙ ap (λ l. l ++ some c ∷ []) h.keys
                  ∙ sym (map-append q (c ∷ []));
            })
      | inr full ↦
          let lt = h.room in
          let last : length q + 1 ≡ capacity = ground arith in
          rw (push_key, accept, full, push_key_full b q h last) h
    ]

    push_keys-Holds :
        (cs : List A) (b : KeyBuffer A) (q : List A)
        → Holds capacity b q
        → Holds capacity (push_keys wrap cs b) (accept_all capacity cs q)
    unfolding push_keys accept_all
    push_keys-Holds [] b q h = h
    push_keys-Holds (c ∷ cs) b q h =
        push_keys-Holds cs (push_key wrap c b) (accept capacity c q) (push_key-Holds c b q h)

    push_key-read : (c : A) (b : KeyBuffer A) → (push_key wrap c b).read ≡ b.read
    unfolding push_key
    push_key-read c b = elim (Bool-cases (wrap (b.write + 1) == b.read)) [
      | inl full ↦ rw (push_key, full) refl
      | inr room ↦ rw (push_key, room) refl
    ]

    push_keys-read : (cs : List A) (b : KeyBuffer A) → (push_keys wrap cs b).read ≡ b.read
    unfolding push_keys
    push_keys-read [] b = refl
    push_keys-read (c ∷ cs) b = push_keys-read cs (push_key wrap c b) ∙ push_key-read c b

    -- The front of a queue that is held leaves it.
    unfront :
        (c : A) (b : KeyBuffer A) (q : List A)
        → Holds capacity b (c ∷ q)
        → (b.cells b.read ≡ some c) × Holds capacity (record b { read = wrap (b.read + 1) }) q
    unfolding window
    unfront c b q h =
        let first : b.cells (wrap b.read) ≡ some c =
          ap (λ l. elim l [ [] ↦ none | x ∷ xs ↦ x ]) h.keys in
        let others : window wrap b.cells (b.read + 1) (length q) ≡ map some q = ap tail h.keys in
        let e : b.read + length (c ∷ q) ≡ b.read + 1 + length q = omega arith in
        let lt = h.room in
        (
          ap b.cells (sym (cap.within b.read h.read_below)) ∙ first,
          record {
            read_below = cap.below (b.read + 1);
            write_at = h.write_at ∙ ap wrap e ∙ sym (cap.ring.absorbs (b.read + 1) (length q));
            room = omega arith;
            keys = window-wrapped wrap cap.ring b.cells (b.read + 1) (length q) ∙ others;
          },
        )

    -- Whatever the interrupt handler pushes while a pop runs, the pop of an empty ring returns none,
    -- the pop of another returns its oldest key, and the ring then holds the other keys followed by
    -- those accepted meanwhile, the place of the key returned being taken until the end.
    pub pop_key-Holds :
        (cs : List A) (b : KeyBuffer A) (q : List A)
        → Holds capacity b q
        → ((pop_key wrap cs b).0 ≡ (pop_front capacity cs q).0)
          × Holds capacity (pop_key wrap cs b).1 (pop_front capacity cs q).1
    unfolding pop_key pop_front
    pop_key-Holds cs b [] h =
        let same : b.write ≡ b.read = h.write_at ∙ at_read b [] h in
        let empty : (b.read == b.write) ≡ true = rw same (==_refl b.read) in
        rw (pop_key, empty) (refl, push_keys-Holds cs b [] h)
    pop_key-Holds cs b (c ∷ q) h =
        let lt = h.room in
        let apart : b.read ≢ b.write = λ e.
          cap.ring.apart b.read 0 (length (c ∷ q)) (omega arith) lt
            (at_read b (c ∷ q) h ∙ e ∙ h.write_at) in
        let more : (b.read == b.write) ≡ false = ne→== b.read b.write apart in
        let b' : KeyBuffer A = push_keys wrap cs b in
        let kept = push_keys-read cs b in
        let after : Holds capacity b' (c ∷ tail (accept_all capacity cs (c ∷ q))) =
          subst (Holds capacity b') (accept_all-front capacity c cs q)
            (push_keys-Holds cs b (c ∷ q) h) in
        let (first, rest) = unfront c b' (tail (accept_all capacity cs (c ∷ q))) after in
        rw (pop_key, more)
          (
            ap b'.cells (sym kept) ∙ first,
            subst
                (λ r.
                  Holds capacity (record b' { read = wrap (r + 1) })
                    (tail (accept_all capacity cs (c ∷ q))))
                kept rest,
          )
