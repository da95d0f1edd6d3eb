-- ===== src/Api/Listing.antt =====
-- ORDER BY ... DESC LIMIT: rows in descending order of a key, cut to a page, and where a page ends.
pub mod Pages
pub mod Front
pub mod Members
use indexer_rs.Base.{
  ◌≡◌, refl, sym, ◌∙◌, ap, ℕ, zero, suc, ℤ, ◌≤ℤ◌, leb_ℤ, Bool, true, false, Option, none, some,
  List, [], ◌∷◌, arith, All, All-map, if◌then◌else◌, Bool-cases, inl, inr, ◌⊎◌, beq_ℤ, beq_ℤ_iff,
  any,
}

module _ {A : Type 0} where
  abbrev pub last_from : A → List A → A
  last_from x [] = x
  last_from x (y ∷ ys) = last_from y ys

  -- `slice::last`.
  abbrev pub last : List A → Option A
  last [] = none
  last (x ∷ xs) = some (last_from x xs)

tests_swap :
    {A : Type 0} (a b : Bool) (c : A) (d : A)
    → (if a then c else if b then c else d) ≡ (if b then c else if a then c else d)
tests_swap true true c d = refl
tests_swap true false c d = refl
tests_swap false true c d = refl
tests_swap false false c d = refl

module _ {A : Type 0} (key : A → ℤ) where
  unfoldable pub insert_desc : A → List A → List A
  insert_desc x [] = x ∷ []
  insert_desc x (y ∷ ys) =
      let rest = insert_desc x ys in if leb_ℤ (key y) (key x) then x ∷ y ∷ ys else y ∷ rest

  unfoldable pub order_desc : List A → List A
  unfolding insert_desc
  order_desc [] = []
  order_desc (x ∷ xs) = insert_desc x (order_desc xs)

  -- Some row has the key.
  abbrev pub among : ℤ → List A → Bool
  among k xs = any (λ x. beq_ℤ (key x) k) xs

  -- No row has a smaller key than a later one.
  abbrev pub Descending : List A → Type 0
  Descending [] = Unit
  Descending (x ∷ xs) = All (λ y. key y ≤ℤ key x) xs × Descending xs

  insert_desc-All {κ} :
      (P : A → Type κ) (x : A) (ys : List A) → P x → All P ys → All P (insert_desc x ys)
  unfolding insert_desc
  insert_desc-All P x [] p all = (p, tt)
  insert_desc-All P x (y ∷ ys) p all = elim (Bool-cases (leb_ℤ (key y) (key x))) [
    | inl here ↦ rw here (p, all)
    | inr later ↦ rw later (all.0, insert_desc-All P x ys p all.1)
  ]

  pub order_desc-All {κ} : (P : A → Type κ) (xs : List A) → All P xs → All P (order_desc xs)
  unfolding order_desc
  order_desc-All P [] all = tt
  order_desc-All P (x ∷ xs) all =
      insert_desc-All P x (order_desc xs) all.0 (order_desc-All P xs all.1)

  insert_desc-Descending : (x : A) (ys : List A) → Descending ys → Descending (insert_desc x ys)
  unfolding insert_desc
  insert_desc-Descending x [] d = (tt, tt)
  insert_desc-Descending x (y ∷ ys) d = elim (Bool-cases (leb_ℤ (key y) (key x))) [
    | inl here ↦
        let below : key y ≤ℤ key x = ground arith in
        rw here (
          (
            below,
            All-map (λ z. key z ≤ℤ key y) (λ z. key z ≤ℤ key x) ys (λ z h. omega (arith, h, below))
                d.0,
          ),
          d,
        )
    | inr later ↦
        let above : key x ≤ℤ key y = ground arith in
        rw later
          (insert_desc-All (λ z. key z ≤ℤ key y) x ys above d.0, insert_desc-Descending x ys d.1)
  ]

  pub order_desc-Descending : (xs : List A) → Descending (order_desc xs)
  unfolding order_desc
  order_desc-Descending [] = tt
  order_desc-Descending (x ∷ xs) =
      insert_desc-Descending x (order_desc xs) (order_desc-Descending xs)

  insert_desc-among : (k : ℤ) (x : A) (ys : List A) → among k (insert_desc x ys) ≡ among k (x ∷ ys)
  unfolding insert_desc
  insert_desc-among k x [] = refl
  insert_desc-among k x (y ∷ ys) = elim (Bool-cases (leb_ℤ (key y) (key x))) [
    | inl here ↦ rw here refl
    | inr later ↦
        rw (later, insert_desc-among k x ys)
          (tests_swap (beq_ℤ (key y) k) (beq_ℤ (key x) k) true (among k ys))
  ]

  pub order_desc-among : (k : ℤ) (xs : List A) → among k (order_desc xs) ≡ among k xs
  unfolding order_desc
  order_desc-among k [] = refl
  order_desc-among k (x ∷ xs) =
      insert_desc-among k x (order_desc xs)
      ∙ ap (λ rest. if beq_ℤ (key x) k then true else rest) (order_desc-among k xs)
