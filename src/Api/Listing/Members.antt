-- ===== src/Api/Listing/Members.antt =====
-- Ordering and selecting rows loses none and invents none.
use indexer_rs.Base.{
  ◌≡◌, refl, ◌⊎◌, inl, inr, ℕ, zero, suc, ℤ, ◌≤ℤ◌, leb_ℤ, Bool, true, List, [], ◌∷◌, keep, take,
  length, arith, All, Bool-cases,
}
use indexer_rs.Db.Extended.{Among}
use indexer_rs.Api.Listing.{insert_desc, order_desc, Descending}

pub All-Among : {A : Type 0} (P : A → Type 0) (xs : List A) (x : A) → All P xs → Among xs x → P x
All-Among P [] x all m = absurd m
All-Among P (y ∷ ys) x all (inl same) = rw same all.0
All-Among P (y ∷ ys) x all (inr later) = All-Among P ys x all.1 later

module _ {A : Type 0} where
  pub keep-Among :
      (p : A → Bool) (xs : List A) (x : A) → Among xs x → p x ≡ true → Among (keep p xs) x
  keep-Among p [] x m h = absurd m
  keep-Among p (y ∷ ys) x (inl same) h = let here : p y ≡ true = rw⁻¹ same h in rw here (inl same)
  keep-Among p (y ∷ ys) x (inr later) h = elim (Bool-cases (p y)) [
    | inl kept ↦ rw kept (inr (keep-Among p ys x later h))
    | inr dropped ↦ rw dropped (keep-Among p ys x later h)
  ]

  pub Among-keep :
      (p : A → Bool) (xs : List A) (x : A) → Among (keep p xs) x → Among xs x × (p x ≡ true)
  Among-keep p [] x m = absurd m
  Among-keep p (y ∷ ys) x m = elim (Bool-cases (p y)) [
    | inl kept ↦
        let m' : (x ≡ y) ⊎ Among (keep p ys) x = rw kept at m in
        elim m' [
          | inl same ↦ (inl same, rw same kept)
          | inr later ↦ let (there, h) = Among-keep p ys x later in (inr there, h)
        ]
    | inr dropped ↦ let (there, h) = Among-keep p ys x (rw dropped at m) in (inr there, h)
  ]

module _ {A : Type 0} (key : A → ℤ) where
  insert-Among_self : (x : A) (ys : List A) → Among (insert_desc key x ys) x
  unfolding insert_desc
  insert-Among_self x [] = inl refl
  insert-Among_self x (y ∷ ys) = elim (Bool-cases (leb_ℤ (key y) (key x))) [
    | inl here ↦ rw here (inl refl)
    | inr later ↦ rw later (inr (insert-Among_self x ys))
  ]

  insert-Among : (x : A) (ys : List A) (z : A) → Among ys z → Among (insert_desc key x ys) z
  unfolding insert_desc
  insert-Among x [] z m = absurd m
  insert-Among x (y ∷ ys) z m = elim (Bool-cases (leb_ℤ (key y) (key x))) [
    | inl here ↦ rw here (inr m)
    | inr later ↦
        rw later (elim m [ inl same ↦ inl same | inr rest ↦ inr (insert-Among x ys z rest) ])
  ]

  Among-insert :
      (x : A) (ys : List A) (z : A) → Among (insert_desc key x ys) z → (z ≡ x) ⊎ Among ys z
  unfolding insert_desc
  Among-insert x [] z m = m
  Among-insert x (y ∷ ys) z m = elim (Bool-cases (leb_ℤ (key y) (key x))) [
    | inl here ↦ rw here at m
    | inr later ↦
        let m' : (z ≡ y) ⊎ Among (insert_desc key x ys) z = rw later at m in
        elim m' [
          | inl same ↦ inr (inl same)
          | inr rest ↦ elim (Among-insert x ys z rest) [
            | inl same ↦ inl same
            | inr there ↦ inr (inr there)
          ]
        ]
  ]

  pub order-Among : (xs : List A) (z : A) → Among xs z → Among (order_desc key xs) z
  unfolding order_desc
  order-Among [] z m = absurd m
  order-Among (x ∷ xs) z (inl same) = rw same (insert-Among_self x (order_desc key xs))
  order-Among (x ∷ xs) z (inr later) = insert-Among x (order_desc key xs) z (order-Among xs z later)

  pub Among-order : (xs : List A) (z : A) → Among (order_desc key xs) z → Among xs z
  unfolding order_desc
  Among-order [] z m = absurd m
  Among-order (x ∷ xs) z m = elim (Among-insert x (order_desc key xs) z m) [
    | inl same ↦ inl same
    | inr later ↦ inr (Among-order xs z later)
  ]

  -- A row that a page of `n` leaves out comes after all its rows, and the page is full.
  pub take-Among :
      (n : ℕ) (xs : List A) (z : A)
      → Descending key xs
      → Among xs z
      → Among (take n xs) z
        ⊎ ((length (take n xs) ≡ n) × All (λ (y : A). key z ≤ℤ key y) (take n xs))
  take-Among n [] z d m = absurd m
  take-Among zero (x ∷ xs) z d m = inr (refl, tt)
  take-Among (suc n) (x ∷ xs) z d (inl same) = inl (inl same)
  take-Among (suc n) (x ∷ xs) z d (inr later) = elim (take-Among n xs z d.1 later) [
    | inl inside ↦ inl (inr inside)
    | inr (full, after) ↦
        inr (ground (arith, full), (All-Among (λ (y : A). key y ≤ℤ key x) xs z d.0 later, after))
  ]

pub Among-take : {A : Type 0} (n : ℕ) (xs : List A) (z : A) → Among (take n xs) z → Among xs z
Among-take n [] z m = absurd m
Among-take zero (x ∷ xs) z m = absurd m
Among-take (suc n) (x ∷ xs) z (inl same) = inl same
Among-take (suc n) (x ∷ xs) z (inr later) = inr (Among-take n xs z later)
