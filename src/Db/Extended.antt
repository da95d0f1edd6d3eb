-- ===== src/Db/Extended.antt =====
-- How a table grows by ON CONFLICT DO NOTHING, row by row: a key that was there keeps its row, and a new
-- key has a row that was written.
use indexer_rs.Base.{
  ◌≡◌, refl, sym, ◌∙◌, ◌⊎◌, inl, inr, true, false, Option, none, some, List, [], ◌∷◌, arith, Key,
  ◌==◌, Bool-cases,
}
use indexer_rs.Db.Table.{has, find, insert_new, find-none, find-has}

-- The value is in the list.
abbrev pub Among : {A : Type 0} → List A → A → Type 0
Among [] x = ⊥
Among (y ∷ ys) x = (x ≡ y) ⊎ Among ys x

-- Where the row of a key comes from: it stood there before, or it was written.
abbrev pub From : {R : Type 0} → Option R → (R → Type 0) → R → Type 0
From (some old) written s = s ≡ old
From none written s = written s

module _ {R K : Type 0} ⦃e : Key K⦄ (key : R → K) where
  -- For every key, the row is the same after as before, or there was none and it is a written one.
  abbrev pub Extended : (R → Type 0) → List R → List R → Type 0
  Extended written a b =
      (k : K)
      → (find key k b ≡ find key k a)
        ⊎ ((find key k a ≡ none) × ((s : R) × (find key k b ≡ some s) × written s))

  -- The table has one row with the key of `r`, and it is the row from before or, if there was none, a
  -- written one.
  abbrev pub Stored : (R → Type 0) → List R → List R → R → Type 0
  Stored written a b r =
      (s : R) × (find key (key r) b ≡ some s)
      × (key s ≡ key r)
      × From (find key (key r) a) written s

  pub Extended-trans :
      (written : R → Type 0) (a b c : List R)
      → Extended written a b
      → Extended written b c
      → Extended written a c
  Extended-trans written a b c f g k = elim (f k) [
    | inl same ↦ elim (g k) [
      | inl same' ↦ inl (same' ∙ same)
      | inr (fresh, new) ↦ inr (sym same ∙ fresh, new)
    ]
    | inr (fresh, (s, there, w)) ↦ elim (g k) [
      | inl same' ↦ inr (fresh, (s, same' ∙ there, w))
      | inr (fresh', _) ↦ absurd (ground (arith, there, fresh'))
    ]
  ]

  -- A row with a new key.
  pub Extended-cons :
      (written : R → Type 0) (r : R) (rows : List R)
      → has key (key r) rows ≡ false
      → written r
      → Extended written rows (r ∷ rows)
  unfolding find
  Extended-cons written r rows fresh w k = elim (Bool-cases (key r == k)) [
    | inr other ↦ rw other (inl refl)
    | inl same ↦
        let is : key r ≡ k = (e.same_iff (key r) k).0 same in
        rw same (inr (rw⁻¹ is (find-none key (key r) rows fresh), (r, refl, w)))
  ]

  pub Extended-insert_new :
      (written : R → Type 0) (r : R) (rows : List R)
      → written r
      → Extended written rows (insert_new key r rows)
  unfolding insert_new
  Extended-insert_new written r rows w = elim (Bool-cases (has key (key r) rows)) [
    | inl old ↦ rw old (λ k. inl refl)
    | inr new ↦ rw new (Extended-cons written r rows new w)
  ]

  -- A key that is there after the growth has its row.
  pub has-Stored :
      (written : R → Type 0) (a b : List R) (r : R)
      → Extended written a b
      → has key (key r) b ≡ true
      → Stored written a b r
  has-Stored written a b r grown there =
      let (s, (found, is)) = find-has key (key r) b there in
      elim (grown (key r)) [
        | inl same ↦ (s, found, is, rw (sym same ∙ found) refl)
        | inr (fresh, (t, found', w)) ↦ (t, found', ground (arith, found, found', is), rw fresh w)
      ]

  pub Stored-weaken :
      (written allowed : R → Type 0) (a b : List R) (r : R)
      → ((s : R) → key s ≡ key r → written s → allowed s)
      → Stored written a b r
      → Stored allowed a b r
  Stored-weaken written allowed a b r f (s, found, is, from) =
      (s, found, is, weaken (find key (key r) a) from)
    where
      weaken : (o : Option R) → From o written s → From o allowed s
      weaken none w = f s is w
      weaken (some old) same = same
