-- ===== src/Api/Listing/Front.antt =====
-- ORDER BY ... LIMIT 1: the row that comes first.
use indexer_rs.Base.{
  ◌≡◌, refl, ap, ◌∙◌, ℤ, pos, ◌-ℤ◌, -ℤ_parts, ◌≤ℤ◌, true, Option, none, some, List, [], ◌∷◌, arith,
  All, All-map, beq_ℤ, beq_ℤ_iff, Bool-cases, inl, inr,
}
use indexer_rs.Api.Listing.{
  order_desc, among, Descending, order_desc-Descending, order_desc-among, order_desc-All,
}
use indexer_rs.Api.Listing.Pages.{among-le}

-- `x` is one of the rows.
pub data Elem {A : Type 0} (x : A) : List A → Type 0 where
  here : {xs : List A} → Elem x (x ∷ xs)
  there : {y : A} {xs : List A} → Elem x xs → Elem x (y ∷ xs)

pub All-Elem : {A : Type 0} (xs : List A) → All (λ x. Elem x xs) xs
All-Elem [] = tt
All-Elem (x ∷ xs) =
    (here, All-map (λ y. Elem y xs) (λ y. Elem y (x ∷ xs)) xs (λ y h. there h) (All-Elem xs))

abbrev pub front : {A : Type 0} → List A → Option A
front [] = none
front (x ∷ xs) = some x

-- ASC is DESC of the opposite.
abbrev pub opposite : {A : Type 0} → (A → ℤ) → A → ℤ
opposite key x = pos 0 -ℤ key x

front-greatest_of :
    {A : Type 0} (key : A → ℤ) (P : A → Type 0) (k : ℤ) (xs : List A)
    → Descending key xs
    → All P xs
    → among key k xs ≡ true
    → (x : A) × ((front xs ≡ some x) × P x × (k ≤ℤ key x))
front-greatest_of key P k [] d all found = absurd (cc)
front-greatest_of key P k (x ∷ xs) d all found = (x, (refl, all.0, bound))
  where
    bound : k ≤ℤ key x
    bound = among-le key k x (x ∷ xs) (omega arith, d.0) found

module _ {A : Type 0} (key : A → ℤ) where
  -- The first row in descending order has at least each key among the rows.
  pub front-greatest :
      (P : A → Type 0) (k : ℤ) (xs : List A)
      → All P xs
      → among key k xs ≡ true
      → (x : A) × ((front (order_desc key xs) ≡ some x) × P x × (k ≤ℤ key x))
  front-greatest P k xs all found =
      front-greatest_of key P k (order_desc key xs) (order_desc-Descending key xs)
        (order_desc-All key P xs all) (order_desc-among key k xs ∙ found)

  opposite-among :
      (k : ℤ) (xs : List A) → among key k xs ≡ true → among (opposite key) (pos 0 -ℤ k) xs ≡ true
  opposite-among k [] found = absurd (cc)
  opposite-among k (x ∷ xs) found = elim (Bool-cases (beq_ℤ (key x) k)) [
    | inl same ↦
        let e = (beq_ℤ_iff (key x) k).0 same in
        rw ((beq_ℤ_iff (opposite key x) (pos 0 -ℤ k)).1 (ap (λ (v : ℤ). pos 0 -ℤ v) e)) refl
    | inr other ↦ elim (Bool-cases (beq_ℤ (opposite key x) (pos 0 -ℤ k))) [
      | inl same ↦ rw same refl
      | inr other' ↦ rw other' (opposite-among k xs (rw other at found))
    ]
  ]

  -- The first row in ascending order has at most each key among the rows.
  pub front-least :
      (P : A → Type 0) (k : ℤ) (xs : List A)
      → All P xs
      → among key k xs ≡ true
      → (x : A) × ((front (order_desc (opposite key) xs) ≡ some x) × P x × (key x ≤ℤ k))
  front-least P k xs all found =
      let first =
        front-greatest_of (opposite key) P (pos 0 -ℤ k) (order_desc (opposite key) xs)
          (order_desc-Descending (opposite key) xs) (order_desc-All (opposite key) P xs all)
          (order_desc-among (opposite key) (pos 0 -ℤ k) xs ∙ opposite-among k xs found) in
      (
        first.0,
        (
          first.1.0,
          first.1.1,
          omega (arith, first.1.2, -ℤ_parts (pos 0) (key first.0), -ℤ_parts (pos 0) k),
        ),
      )
