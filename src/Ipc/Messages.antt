-- ===== src/Ipc/Messages.antt =====
-- A message carries the bytes that it was made of, up to its size.
use rust_so_kernel.Prelude.{
  ℕ, ◌-◌, ◌≡◌, ◌∙◌, sym, refl, ap, arith, List, [], ◌∷◌, ◌++◌, length, take, min, replicate,
  length-take, take-min, length-append, length-replicate,
}
use rust_so_kernel.Ipc.{message, payload}

take-length_append {ℓ} : {A : Type ℓ} (xs ys : List A) → take (length xs) (xs ++ ys) ≡ xs
take-length_append [] ys = refl
take-length_append (x ∷ xs) ys = ap (◌∷◌ x) (take-length_append xs ys)

-- A message holds 56 bytes whatever it is made of, and its payload is the first 56 bytes that it
-- was made of.
pub payload-message :
    (tag : ℕ) (bytes : List ℕ)
    → (length (message tag bytes).payload_bytes ≡ 56)
      × (payload (message tag bytes) ≡ take 56 bytes)
unfolding message payload
payload-message tag bytes =
    let n = min (length bytes) 56 in
    let size : length (take n bytes) ≡ n = length-take n bytes ∙ (omega arith) in
    let zeros : List ℕ = replicate (56 - n) 0 in
    let filler : length zeros ≡ 56 - n = length-replicate (56 - n) 0 in
    let flip : n ≡ min 56 (length bytes) = omega arith in
    (
      length-append (take n bytes) zeros ∙ (omega (arith, size, filler)),
      ap (λ k. take k (take n bytes ++ zeros)) (sym size)
          ∙ take-length_append (take n bytes) zeros
          ∙ ap (λ k. take k bytes) flip
          ∙ take-min 56 bytes,
    )
