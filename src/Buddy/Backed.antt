-- ===== src/Buddy/Backed.antt =====
-- The free lists hold blocks where blocks may start, and every bit of the bitmap that is set belongs
-- to a block in its list: kept by each operation on the lists.
use rust_so_kernel.Prelude.{
  ℕ, zero, suc, ◌≡◌, ◌≤◌, ◌≢◌, refl, arith, Bool, true, false, List, [], ◌∷◌, All, some, ap, inl,
  inr, subst, Bool-cases, Option-cases, List-cases, sym, ◌∙◌, if◌then◌else◌, ◌==◌, ==→eq, ==_refl,
  ne→==, some_inj, ℕ_discrete,
}
use rust_so_kernel.Prelude.Bits.{bit_test}
use rust_so_kernel.Buddy.{
  BuddyAllocator, order_to_index, list_of, with_list, bitmap_pos, bitmap_set, bitmap_clear, is_free,
  add_block, remove_from_head, remove_arbitrary_block, unlink,
}
use rust_so_kernel.Buddy.Merging.{IsAligned}
use rust_so_kernel.Buddy.Bitmap.{
  is_free-bitmap_set, is_free-bitmap_clear, is_free-bitmap_clear_self,
}

unfoldable pub listed : ℕ → List ℕ → Bool
listed a [] = false
listed a (b ∷ blocks) = if b == a then true else listed a blocks

pub record IsBacked (s : BuddyAllocator) : Type 0 where
  pub aligned : (o : ℕ) → 12 ≤ o → o ≤ 28 → All (IsAligned o) (list_of o s)
  pub backed :
      (o b : ℕ)
      → 12 ≤ o
      → o ≤ 28
      → IsAligned o b
      → is_free o b s ≡ true
      → listed b (list_of o s) ≡ true

list_of_same :
    (o : ℕ) (blocks : List ℕ) (s : BuddyAllocator) → list_of o (with_list o blocks s) ≡ blocks
list_of_same o blocks s = rw (==_refl (order_to_index o)) refl

list_of_other :
    (o k : ℕ) (blocks : List ℕ) (s : BuddyAllocator)
    → 12 ≤ o
    → 12 ≤ k
    → k ≢ o
    → list_of k (with_list o blocks s) ≡ list_of k s
list_of_other o k blocks s low low' ne =
    rw (ne→== (order_to_index k) (order_to_index o) (λ e. ne (omega arith))) refl

pub list_of-bitmap_clear :
    (order a k : ℕ) (s : BuddyAllocator) → list_of k (bitmap_clear order a s) ≡ list_of k s
unfolding bitmap_clear
list_of-bitmap_clear order a k s = elim (Option-cases (bitmap_pos order a)) [
  | inl e ↦ rw (bitmap_clear, e) refl
  | inr ((byte, bit), e) ↦ rw (bitmap_clear, e) refl
]

pub list_of-bitmap_set :
    (order a k : ℕ) (s t : BuddyAllocator)
    → bitmap_set order a s ≡ some t
    → list_of k t ≡ list_of k s
unfolding bitmap_set
list_of-bitmap_set order a k s t h = elim (Option-cases (bitmap_pos order a)) [
  | inl e ↦ ap (λ (u : BuddyAllocator). list_of k u) (sym (some_inj (rw (bitmap_set, e) at h)))
  | inr ((byte, bit), e) ↦ (elim (Bool-cases (bit_test bit (s.bitmap byte))) [
    | inl set ↦ absurd (let h' = rw (bitmap_set, e, set) at h in cc)
    | inr clear ↦
        ap (λ (u : BuddyAllocator). list_of k u) (sym (some_inj (rw (bitmap_set, e, clear) at h)))
  ])
]

-- The list of one order changes to `blocks`, and the bits only to what `blocks` backs.
change :
    (order : ℕ) (blocks : List ℕ) (s t : BuddyAllocator)
    → 12 ≤ order
    → IsBacked s
    → ((k : ℕ) → list_of k t ≡ list_of k (with_list order blocks s))
    → All (IsAligned order) blocks
    → ((o b : ℕ)
        → o ≢ order
        → 12 ≤ o
        → o ≤ 28
        → IsAligned o b
        → is_free o b t ≡ true
        → is_free o b s ≡ true)
    → ((b : ℕ) → IsAligned order b → is_free order b t ≡ true → listed b blocks ≡ true)
    → IsBacked t
change order blocks s t low h lists fits others mine = record {
  aligned = λ o low' high'. elim (ℕ_discrete o order) [
    | yes e ↦
        let l : list_of o t ≡ blocks =
          lists o
          ∙ ap (λ (k : ℕ). list_of k (with_list order blocks s)) e
          ∙ list_of_same order blocks s in
        subst (All (IsAligned o)) (sym l) (subst (λ (k : ℕ). All (IsAligned k) blocks) (sym e) fits)
    | no ne ↦
        subst (All (IsAligned o)) (sym (lists o ∙ list_of_other order o blocks s low low' ne))
          (h.aligned o low' high')
  ];
  backed = λ o b low' high' at free. elim (ℕ_discrete o order) [
    | yes e ↦
        let l : list_of o t ≡ blocks =
          lists o
          ∙ ap (λ (k : ℕ). list_of k (with_list order blocks s)) e
          ∙ list_of_same order blocks s in
        subst (λ (l : List ℕ). listed b l ≡ true) (sym l)
          (mine b (subst (λ (k : ℕ). IsAligned k b) e at)
            (subst (λ (k : ℕ). is_free k b t ≡ true) e free))
    | no ne ↦
        subst (λ (l : List ℕ). listed b l ≡ true)
          (sym (lists o ∙ list_of_other order o blocks s low low' ne))
          (h.backed o b low' high' at (others o b ne low' high' at free))
  ];
}

listed_more : (a b : ℕ) (blocks : List ℕ) → listed b blocks ≡ true → listed b (a ∷ blocks) ≡ true
unfolding listed
listed_more a b blocks h = elim (Bool-cases (a == b)) [
  | inl same ↦ rw (listed, same) refl
  | inr other ↦ rw (listed, other) h
]

listed_first : (a b : ℕ) (blocks : List ℕ) → b ≡ a → listed b (a ∷ blocks) ≡ true
unfolding listed
listed_first a b blocks e = rw (e, listed, ==_refl a) refl

listed_rest :
    (a b : ℕ) (blocks : List ℕ) → b ≢ a → listed b (a ∷ blocks) ≡ true → listed b blocks ≡ true
unfolding listed
listed_rest a b blocks ne h = rw (listed, ne→== a b (λ e. ne (sym e))) at h

pub add_block-IsBacked :
    (order a : ℕ) (s t : BuddyAllocator)
    → 12 ≤ order
    → order ≤ 28
    → IsAligned order a
    → IsBacked s
    → add_block order a s ≡ some t
    → IsBacked t
unfolding add_block is_free
add_block-IsBacked order a s t low high fits h e =
    let u = with_list order (a ∷ list_of order s) s in
    change order (a ∷ list_of order s) s t low h (λ k. list_of-bitmap_set order a k u t e)
      (fits, h.aligned order low high)
      (λ o b ne low' high' at free.
        elim (is_free-bitmap_set order a o b u t low high fits low' high' at e free) [
          | inl (same, _) ↦ absurd (ne same)
          | inr old ↦ old
        ])
      (λ b at free. elim (is_free-bitmap_set order a order b u t low high fits low high at e free) [
        | inl (_, same) ↦ listed_first a b (list_of order s) same
        | inr old ↦ listed_more a b (list_of order s) (h.backed order b low high at old)
      ])

-- One block goes from its list, and its bit with it.
leaves :
    (order a : ℕ) (blocks : List ℕ) (s : BuddyAllocator)
    → 12 ≤ order
    → order ≤ 28
    → IsBacked s
    → All (IsAligned order) blocks
    → ((b : ℕ) → b ≢ a → listed b (list_of order s) ≡ true → listed b blocks ≡ true)
    → IsBacked (bitmap_clear order a (with_list order blocks s))
unfolding is_free
leaves order a blocks s low high h fits less =
    let u = with_list order blocks s in
    change order blocks s (bitmap_clear order a u) low h (λ k. list_of-bitmap_clear order a k u)
      fits (λ o b ne low' high' at free. is_free-bitmap_clear order a o b u free)
      (λ b at free. elim (ℕ_discrete b a) [
        | yes e ↦ absurd (
            let gone = is_free-bitmap_clear_self order a u in
            let set = subst (λ (c : ℕ). is_free order c (bitmap_clear order a u) ≡ true) e free in
            cc)
        | no ne ↦
            less b ne (h.backed order b low high at (is_free-bitmap_clear order a order b u free))
      ])

pub remove_from_head-IsBacked :
    (order a : ℕ) (next : List ℕ) (s : BuddyAllocator)
    → 12 ≤ order
    → order ≤ 28
    → IsBacked s
    → list_of order s ≡ a ∷ next
    → IsBacked (remove_from_head order a next s)
unfolding remove_from_head
remove_from_head-IsBacked order a next s low high h e =
    let fits = subst (All (IsAligned order)) e (h.aligned order low high) in
    leaves order a next s low high h fits.1
      (λ b ne l. listed_rest a b next ne (subst (λ (l : List ℕ). listed b l ≡ true) e l))

record IsUnlinked (order a : ℕ) (blocks left : List ℕ) : Type 0 where
  fits : All (IsAligned order) blocks → All (IsAligned order) left
  others : (b : ℕ) → b ≢ a → listed b blocks ≡ true → listed b left ≡ true

behind :
    (order a b : ℕ) (blocks left : List ℕ)
    → IsUnlinked order a blocks left
    → IsUnlinked order a (b ∷ blocks) (b ∷ left)
unfolding listed
behind order a b blocks left u = record {
  fits = λ f. (f.0, u.fits f.1);
  others = λ c ne l. elim (Bool-cases (b == c)) [
    | inl same ↦ rw (listed, same) refl
    | inr other ↦ rw (listed, other) (u.others c ne (rw (listed, other) at l))
  ];
}

unlink-IsUnlinked :
    (n order a : ℕ) (blocks left : List ℕ)
    → unlink n a blocks ≡ some left
    → IsUnlinked order a blocks left
unfolding unlink
unlink-IsUnlinked zero order a blocks left h = absurd (cc)
unlink-IsUnlinked (suc n) order a [] left h = absurd (cc)
unlink-IsUnlinked (suc n) order a (b ∷ blocks) left h = elim (Bool-cases (b == a)) [
  | inl same ↦
      let e : blocks ≡ left = some_inj (rw (unlink, same) at h) in
      subst (IsUnlinked order a (b ∷ blocks)) e (record {
        fits = λ f. f.1;
        others = λ c ne l. listed_rest b c blocks (λ e. ne (e ∙ ==→eq b a same)) l;
      })
  | inr other ↦ (elim (Option-cases (unlink n a blocks)) [
    | inl e ↦ absurd (let h' = rw (unlink, other, e) at h in cc)
    | inr (rest, e) ↦
        let l : b ∷ rest ≡ left = some_inj (rw (unlink, other, e) at h) in
        let u = unlink-IsUnlinked n order a blocks rest e in
        subst (IsUnlinked order a (b ∷ blocks)) l (behind order a b blocks rest u)
  ])
]

phantom-IsBacked :
    (order a : ℕ) (s : BuddyAllocator) → IsBacked s → IsBacked (bitmap_clear order a s)
phantom-IsBacked order a s h = record {
  aligned = λ o low high.
      subst (All (IsAligned o)) (sym (list_of-bitmap_clear order a o s)) (h.aligned o low high);
  backed = λ o b low high at free.
      subst (λ (l : List ℕ). listed b l ≡ true) (sym (list_of-bitmap_clear order a o s))
        (h.backed o b low high at (is_free-bitmap_clear order a o b s free));
}

pub remove_arbitrary_block-IsBacked :
    (order a : ℕ) (s : BuddyAllocator)
    → 12 ≤ order
    → order ≤ 28
    → IsBacked s
    → IsBacked (remove_arbitrary_block order a s).1
unfolding remove_arbitrary_block
remove_arbitrary_block-IsBacked order a s low high h = elim (List-cases (list_of order s)) [
  | inl e ↦ rw (remove_arbitrary_block, e) (phantom-IsBacked order a s h)
  | inr (head, blocks, e) ↦ (elim (Bool-cases (head == a)) [
    | inl same ↦
        let at_head : list_of order s ≡ a ∷ blocks =
          subst (λ (c : ℕ). list_of order s ≡ c ∷ blocks) (==→eq head a same) e in
        rw (remove_arbitrary_block, e, same)
          (remove_from_head-IsBacked order a blocks s low high h at_head)
    | inr other ↦ (elim (Option-cases (unlink 4096 a blocks)) [
      | inl gone ↦ rw (remove_arbitrary_block, e, other, gone) (phantom-IsBacked order a s h)
      | inr (left, cut) ↦
          let fits = subst (All (IsAligned order)) e (h.aligned order low high) in
          let u =
            behind order a head blocks left (unlink-IsUnlinked 4096 order a blocks left cut) in
          rw (remove_arbitrary_block, e, other, cut)
            (leaves order a (head ∷ left) s low high h (u.fits fits)
              (λ b ne l. u.others b ne (subst (λ (l : List ℕ). listed b l ≡ true) e l)))
    ])
  ])
]
