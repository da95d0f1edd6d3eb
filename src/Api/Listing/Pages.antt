-- ===== src/Api/Listing/Pages.antt =====
-- The last row of a page bounds the page from below, and the page misses no key from there on.
use indexer_rs.Base.{
  take, keep, length, ◌≤◌, Bool, ap, ◌∙◌, ◌≡◌, refl, ℕ, zero, suc, ℤ, ◌≤ℤ◌, true, List, [], ◌∷◌,
  arith, All, Bool-cases, inl, inr, ◌⊎◌, beq_ℤ, beq_ℤ_iff,
}
use indexer_rs.Api.Listing.{last_from, among, Descending}

pub take-All {κ} :
    {A : Type 0} (P : A → Type κ) (n : ℕ) (xs : List A) → All P xs → All P (take n xs)
take-All P n [] all = tt
take-All P zero (x ∷ xs) all = tt
take-All P (suc n) (x ∷ xs) all = (all.0, take-All P n xs all.1)

pub length-take-le : {A : Type 0} (n : ℕ) (xs : List A) → length (take n xs) ≤ n
length-take-le n [] = omega arith
length-take-le zero (x ∷ xs) = omega arith
length-take-le (suc n) (x ∷ xs) = omega (arith, length-take-le n xs)

module _ {A : Type 0} (key : A → ℤ) where
  pub take-Descending : (n : ℕ) (xs : List A) → Descending key xs → Descending key (take n xs)
  take-Descending n [] d = tt
  take-Descending zero (x ∷ xs) d = tt
  take-Descending (suc n) (x ∷ xs) d =
      (take-All (λ y. key y ≤ℤ key x) n xs d.0, take-Descending n xs d.1)

  -- A filter on the key keeps the keys that pass it.
  pub keep-among :
      (p : ℤ → Bool) (k : ℤ) (xs : List A)
      → p k ≡ true
      → among key k xs ≡ true
      → among key k (keep (λ x. p (key x)) xs) ≡ true
  keep-among p k [] passes found = found
  keep-among p k (x ∷ xs) passes found = elim (Bool-cases (beq_ℤ (key x) k)) [
    | inl here ↦
        let same : p (key x) ≡ true = ap p ((beq_ℤ_iff (key x) k).0 here) ∙ passes in
        rw (same, here) refl
    | inr later ↦
        let rest = keep-among p k xs passes (rw later at found) in
        elim (Bool-cases (p (key x))) [
          | inl yes' ↦ rw (yes', later, rest) refl
          | inr no' ↦ rw (no', rest) refl
        ]
  ]

  pub take-above_last :
      (n : ℕ) (x : A) (xs : List A)
      → Descending key (x ∷ xs)
      → (key (last_from x (take n xs)) ≤ℤ key x)
        × All (λ y. key (last_from x (take n xs)) ≤ℤ key y) (take n xs)
  take-above_last n x [] d = (omega arith, tt)
  take-above_last zero x (y ∷ ys) d = (omega arith, tt)
  take-above_last (suc n) x (y ∷ ys) d =
      let (front, rest) = take-above_last n y ys d.1 in
      let step : key y ≤ℤ key x = d.0.0 in (omega (arith, front, step), (front, rest))

  -- An element whose key stands among the rows has at most the key of each bound of them.
  pub among-le :
      (k : ℤ) (x : A) (xs : List A)
      → All (λ y. key y ≤ℤ key x) xs
      → among key k xs ≡ true
      → k ≤ℤ key x
  among-le k x [] below found = ground arith
  among-le k x (y ∷ ys) below found = elim (Bool-cases (beq_ℤ (key y) k)) [
    | inl here ↦ let front : key y ≤ℤ key x = below.0 in ground (arith, front, here)
    | inr later ↦ among-le k x ys below.1 (rw later at found)
  ]

  pub take-among :
      (k : ℤ) (n : ℕ) (x : A) (xs : List A)
      → Descending key (x ∷ xs)
      → key (last_from x (take n xs)) ≤ℤ k
      → among key k xs ≡ true
      → (among key k (take n xs) ≡ true) ⊎ (key x ≡ k)
  take-among k n x [] d reached found = ground arith
  take-among k zero x (y ∷ ys) d reached found =
      let bound = among-le k x (y ∷ ys) d.0 found in inr (ground (arith, bound, reached))
  take-among k (suc n) x (y ∷ ys) d reached found = elim (Bool-cases (beq_ℤ (key y) k)) [
    | inl here ↦ inl (rw here refl)
    | inr later ↦ elim (take-among k n y ys d.1 reached (rw later at found)) [
      | inl inside ↦ inl (rw (later, inside) refl)
      | inr front ↦ inl (rw ((beq_ℤ_iff (key y) k).1 front) refl)
    ]
  ]
