-- ===== src/Ipc/Paths.antt =====
-- The paths that servers bind and clients look up: an array of 64 bytes that `sys_bind` fills with a
-- path of at most 63 bytes, none of them 0, and `find_by_path` compares with another.
use rust_so_kernel.Prelude.{
  ℕ, zero, suc, ◌+◌, ◌-◌, ◌≡◌, ◌≤◌, ◌<◌, sym, ◌∙◌, refl, ap, ap₂, arith, Option, none, some, Bool,
  true, false, ◌&&◌, Option-cases, Bool-cases, inl, inr, subst, ◌==◌, ==_refl, ==→eq, List, [], ◌∷◌,
  ◌++◌, All, length, take, replicate, get_or, min, some_inj, take-all, ℕ_discrete,
}
use rust_so_kernel.Ipc.{Channel, ChannelTable, same_bytes, is_bound_to, find_from, find_by_path}

pub record IsPath (path : List ℕ) : Type 0 where
  pub short : length path ≤ 63
  pub no_zero : All (λ b. 0 < b) path

-- The array in which a path is kept.
unfoldable pub path_buf : List ℕ → List ℕ
path_buf path = path ++ replicate (64 - length path) 0

same_bytes_refl : (xs : List ℕ) → same_bytes xs xs ≡ true
unfolding same_bytes
same_bytes_refl [] = refl
same_bytes_refl (x ∷ xs) = rw (==_refl x, same_bytes_refl xs) refl

and_true : (a b : Bool) → (a && b) ≡ true → (a ≡ true) × (b ≡ true)
and_true true b h = (refl, h)
and_true false b h = absurd (cc)

-- The comparison of a path with a padded one.
matches_only :
    (p q : List ℕ) (z : ℕ)
    → All (λ b. 0 < b) p
    → All (λ b. 0 < b) q
    → same_bytes (take (length q) (p ++ replicate (suc z) 0)) q ≡ true
    → (get_or (p ++ replicate (suc z) 0) (length q) 0 == 0) ≡ true
    → q ≡ p
unfolding same_bytes
matches_only [] [] z hp hq h e = refl
matches_only [] (b ∷ ys) z hp hq h e =
    let zero_byte = (and_true (0 == b) _ h).0 in let pos = hq.0 in absurd (ground arith)
matches_only (a ∷ xs) [] z hp hq h e = let pos = hp.0 in absurd (ground arith)
matches_only (a ∷ xs) (b ∷ ys) z hp hq h e =
    let (same, rest) = and_true (a == b) _ h in
    ap₂ ◌∷◌ (sym (==→eq a b same)) (matches_only xs ys z hp.1 hq.1 rest e)

matches_self :
    (p : List ℕ) (z : ℕ)
    → (same_bytes (take (length p) (p ++ replicate (suc z) 0)) p ≡ true)
      × (get_or (p ++ replicate (suc z) 0) (length p) 0 ≡ 0)
unfolding same_bytes
matches_self [] z = (refl, refl)
matches_self (a ∷ xs) z = let (h, e) = matches_self xs z in (rw (==_refl a) h, e)

is_bound_to-short :
    (q bound : List ℕ)
    → length q ≤ 63
    → is_bound_to q bound
      ≡ (same_bytes (take (length q) bound) q && (get_or bound (length q) 0 == 0))
unfolding is_bound_to
is_bound_to-short q bound le =
    let whole : min (length q) 64 ≡ length q = omega arith in
    let open_end : (length q == 64) ≡ false = ground arith in
    rw (is_bound_to, whole, open_end, take-all (length q) q (omega arith)) refl

path_buf-suc : (p : List ℕ) → length p ≤ 63 → path_buf p ≡ p ++ replicate (suc (63 - length p)) 0
unfolding path_buf
path_buf-suc p le =
    let e : 64 - length p ≡ suc (63 - length p) = omega arith in ap (λ k. p ++ replicate k 0) e

is_bound_to-eq : (p q : List ℕ) → IsPath p → IsPath q → is_bound_to q (path_buf p) ≡ true → q ≡ p
is_bound_to-eq p q hp hq h =
    let h' : (same_bytes (take (length q) (p ++ replicate (suc (63 - length p)) 0)) q
          && (get_or (p ++ replicate (suc (63 - length p)) 0) (length q) 0 == 0))
        ≡ true =
      subst (λ b. (same_bytes (take (length q) b) q && (get_or b (length q) 0 == 0)) ≡ true)
        (path_buf-suc p hp.short) (sym (is_bound_to-short q (path_buf p) hq.short) ∙ h) in
    let (same, stop) = and_true _ _ h' in
    matches_only p q (63 - length p) hp.no_zero hq.no_zero same stop

is_bound_to_self : (p : List ℕ) → IsPath p → is_bound_to p (path_buf p) ≡ true
is_bound_to_self p hp =
    let (same, stop) = matches_self p (63 - length p) in
    is_bound_to-short p (path_buf p) hp.short ∙ rw (path_buf-suc p hp.short, same, stop) refl

-- The channel in a slot is bound to the path.
pub record IsBound (t : ChannelTable) (path : List ℕ) (id : ℕ) : Type 0 where
  pub channel : Channel
  pub in_slot : t.slots id ≡ some channel
  pub bound : channel.bound_path ≡ some (path_buf path)

-- The bound paths are those that `sys_bind` makes.
pub record IsNamed (t : ChannelTable) : Type 0 where
  pub paths :
      (id : ℕ) (c : Channel) (b : List ℕ)
      → t.slots id ≡ some c
      → c.bound_path ≡ some b
      → (p : List ℕ) × IsPath p × (b ≡ path_buf p)

-- The answer of a scan of the slots from `start` up to `stop`.
pub data Scanned (t : ChannelTable) (path : List ℕ) (start stop : ℕ) : Option ℕ → Type 0 where
  absent : ((j : ℕ) → start ≤ j → j < stop → ¬ IsBound t path j) → Scanned t path start stop none
  found :
      (id : ℕ)
      → id < stop
      → IsBound t path id
      → ((j : ℕ) → start ≤ j → j < id → ¬ IsBound t path j)
      → Scanned t path start stop (some id)

Scanned-later :
    (t : ChannelTable) (path : List ℕ) (start stop : ℕ) (o : Option ℕ)
    → ¬ IsBound t path start
    → Scanned t path (start + 1) stop o
    → Scanned t path start stop o
Scanned-later t path start stop none unlike (Scanned.absent none_behind) =
    Scanned.absent (λ j le lt. elim (ℕ_discrete j start) [
      | yes e ↦ λ b. unlike (subst (IsBound t path) e b)
      | no ne ↦ none_behind j (omega arith) lt
    ])
Scanned-later t path start stop (some n) unlike (Scanned.found id lt b first) =
    Scanned.found id lt b (λ j le before. elim (ℕ_discrete j start) [
      | yes e ↦ λ b. unlike (subst (IsBound t path) e b)
      | no ne ↦ first j (omega arith) before
    ])

IsBound-bound_path :
    (t : ChannelTable) (path : List ℕ) (id : ℕ) (c : Channel)
    → IsBound t path id
    → t.slots id ≡ some c
    → c.bound_path ≡ some (path_buf path)
IsBound-bound_path t path id c b used =
    ap (λ (c : Channel). c.bound_path) (some_inj (sym used ∙ b.in_slot)) ∙ b.bound

find_from-Scanned :
    (n start stop : ℕ) (path : List ℕ) (t : ChannelTable)
    → start + n ≡ stop
    → IsNamed t
    → IsPath path
    → Scanned t path start stop (find_from n start path t)
unfolding find_from
find_from-Scanned zero start stop path t e named ok =
    Scanned.absent (λ j le lt. absurd (omega arith))
find_from-Scanned (suc n) start stop path t e named ok =
    let rest = find_from-Scanned n (start + 1) stop path t (omega arith) named ok in
    elim (Option-cases (t.slots start)) [
      | inl free ↦
          rw (find_from, free)
            (Scanned-later t path start stop _
              (λ b. let c = b.in_slot in absurd (let c' = rw free at c in cc)) rest)
      | inr (c, used) ↦ (elim (Option-cases c.bound_path) [
        | inl unbound ↦
            rw (find_from, used, unbound)
              (Scanned-later t path start stop _
                (λ b.
                  let e = IsBound-bound_path t path start c b used in
                  absurd (let e' = rw unbound at e in cc))
                rest)
        | inr (bound, named_so) ↦ (elim (Bool-cases (is_bound_to path bound)) [
          | inl hit ↦
              rw (find_from, used, named_so, hit)
                (Scanned.found start (omega arith)
                  (let (p, is_path, e) = named.paths start c bound used named_so in
                    let same : path ≡ p =
                      is_bound_to-eq p path is_path ok (sym (ap (is_bound_to path) e) ∙ hit) in
                    record {
                      channel = c;
                      in_slot = used;
                      bound = named_so ∙ ap some (e ∙ ap path_buf (sym same));
                    })
                  (λ j le lt. absurd (omega arith)))
          | inr miss ↦
              rw (find_from, used, named_so, miss)
                (Scanned-later t path start stop _
                  (λ b.
                    let e : bound ≡ path_buf path =
                      some_inj (sym named_so ∙ IsBound-bound_path t path start c b used) in
                    let self : is_bound_to path bound ≡ true =
                      ap (is_bound_to path) e ∙ is_bound_to_self path ok in
                    absurd (cc))
                  rest)
        ])
      ])
    ]

-- When every bound path is one that `sys_bind` makes, `find_by_path` of a path of at most 63 bytes,
-- none of them 0, returns the lowest channel that is bound to exactly that path, and none only when
-- there is no such channel.
pub find_by_path-Scanned :
    (path : List ℕ) (t : ChannelTable)
    → IsNamed t
    → IsPath path
    → Scanned t path 0 64 (find_by_path path t)
unfolding find_by_path
find_by_path-Scanned path t named ok = find_from-Scanned 64 0 64 path t (omega arith) named ok
