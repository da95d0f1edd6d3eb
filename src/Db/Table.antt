-- ===== src/Db/Table.antt =====
-- A table is a list of rows with a key. These are the parts of SQL statements that the query helpers of
-- crates/db/src use: lookup by key, insertion with ON CONFLICT DO NOTHING, deletion by a condition.
use indexer_rs.Base.{
  ◌≡◌, refl, Bool, true, false, ◌||◌, Option, none, some, List, [], ◌∷◌, arith, keep, Key, ◌==◌,
  ==_self, if◌then◌else◌, Bool-cases, inl, inr,
}

module _ {ℓ κ} {R : Type ℓ} {K : Type κ} ⦃e : Key K⦄ (key : R → K) where
  -- Whether a row has the key.
  unfoldable pub has : K → List R → Bool
  has k [] = false
  has k (r ∷ rows) = key r == k || has k rows

  -- The row with the key.
  unfoldable pub find : K → List R → Option R
  find k [] = none
  find k (r ∷ rows) = if key r == k then some r else find k rows

  -- INSERT … ON CONFLICT (key) DO NOTHING.
  unfoldable pub insert_new : R → List R → List R
  insert_new r rows = if has (key r) rows then rows else r ∷ rows

  -- No key stands twice.
  abbrev pub Unique : List R → Type 0
  Unique [] = Unit
  Unique (r ∷ rows) = (has (key r) rows ≡ false) × Unique rows

  pub has-insert_new :
      (k : K) (r : R) (rows : List R) → has k (insert_new r rows) ≡ (key r == k || has k rows)
  unfolding has insert_new
  has-insert_new k r rows = ground (arith, e.same_iff (key r) k)

  pub has-insert_new_self : (r : R) (rows : List R) → has (key r) (insert_new r rows) ≡ true
  unfolding has
  has-insert_new_self r rows = rw (has-insert_new (key r) r rows, ==_self (key r))

  pub has-insert_new_mono :
      (k : K) (r : R) (rows : List R) → has k rows ≡ true → has k (insert_new r rows) ≡ true
  has-insert_new_mono k r rows h = rw (has-insert_new k r rows) (ground arith)

  pub insert_new_present :
      (r : R) (rows : List R) → has (key r) rows ≡ true → insert_new r rows ≡ rows
  unfolding insert_new
  insert_new_present r rows h = rw h

  pub Unique-insert_new : (r : R) (rows : List R) → Unique rows → Unique (insert_new r rows)
  unfolding insert_new
  Unique-insert_new r rows u = elim (Bool-cases (has (key r) rows)) [
    | inl old ↦ rw old u
    | inr new ↦ rw new (new, u)
  ]

  pub find-none : (k : K) (rows : List R) → has k rows ≡ false → find k rows ≡ none
  unfolding has find
  find-none k [] h = refl
  find-none k (r ∷ rows) h = ground (arith, find-none k rows)

  pub find-insert_new_ne :
      (k : K) (r : R) (rows : List R)
      → (key r == k) ≡ false
      → find k (insert_new r rows) ≡ find k rows
  unfolding find insert_new
  find-insert_new_ne k r rows h = ground arith

  pub has-keep-le :
      (p : R → Bool) (k : K) (rows : List R) → has k rows ≡ false → has k (keep p rows) ≡ false
  unfolding has
  has-keep-le p k [] h = refl
  has-keep-le p k (r ∷ rows) h = ground (arith, has-keep-le p k rows)

  pub Unique-keep : (p : R → Bool) (rows : List R) → Unique rows → Unique (keep p rows)
  Unique-keep p [] u = tt
  Unique-keep p (r ∷ rows) u =
      ground (arith, has-keep-le p (key r) rows u.0, Unique-keep p rows u.1)

  pub find-has :
      (k : K) (rows : List R) → has k rows ≡ true → (r : R) × ((find k rows ≡ some r) × (key r ≡ k))
  unfolding has find
  find-has k [] h = absurd (ground arith)
  find-has k (r ∷ rows) h = elim (Bool-cases (key r == k)) [
    | inl same ↦ rw same (r, (refl, (e.same_iff (key r) k).0 same))
    | inr other ↦ rw other (find-has k rows (rw other at h))
  ]
