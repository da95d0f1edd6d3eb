-- ===== src/Sync/BlockWriter/Sorting.antt =====
-- `slice::sort_by_key` and `slice::chunks`, as the batch writer uses them, and what they keep.
use mathlib.Core.Path.{subst}
use indexer_rs.Base.{
  All-append, ℕ, ◌-◌, ℤ, ◌≡◌, refl, Bool, ◌&&◌, ◌||◌, List, [], ◌∷◌, ◌++◌, arith, All, ltb_ℤ, leb_ℤ,
  beq_ℤ, nat_beq, if◌then◌else◌, Bool-cases, inl, inr,
}

-- The lexicographic order of two keys.
abbrev pub key_le : ℤ × ℤ → ℤ × ℤ → Bool
key_le (a, b) (c, d) = ltb_ℤ a c || beq_ℤ a c && leb_ℤ b d

module _ {A : Type 0} (key : A → ℤ × ℤ) where
  -- Before the first element with a greater key or the same key: earlier elements stay first.
  unfoldable pub insert_sorted : A → List A → List A
  insert_sorted x [] = x ∷ []
  insert_sorted x (y ∷ ys) = if key_le (key x) (key y) then x ∷ y ∷ ys else y ∷ insert_sorted x ys

  -- The stable sort.
  unfoldable pub sort_by_key : List A → List A
  unfolding insert_sorted
  sort_by_key [] = []
  sort_by_key (x ∷ xs) = insert_sorted x (sort_by_key xs)

  insert_sorted-All {κ} :
      (P : A → Type κ) (x : A) (ys : List A) → P x → All P ys → All P (insert_sorted x ys)
  unfolding insert_sorted
  insert_sorted-All P x [] p all = (p, tt)
  insert_sorted-All P x (y ∷ ys) p all = elim (Bool-cases (key_le (key x) (key y))) [
    | inl here ↦ rw here (p, all)
    | inr later ↦ rw later (all.0, insert_sorted-All P x ys p all.1)
  ]

  -- Sorting keeps what holds of each element.
  pub sort_by_key-All {κ} : (P : A → Type κ) (xs : List A) → All P xs → All P (sort_by_key xs)
  unfolding sort_by_key
  sort_by_key-All P [] all = tt
  sort_by_key-All P (x ∷ xs) all =
      insert_sorted-All P x (sort_by_key xs) all.0 (sort_by_key-All P xs all.1)

  insert_sorted-All_inv {κ} :
      (P : A → Type κ) (x : A) (ys : List A) → All P (insert_sorted x ys) → P x × All P ys
  unfolding insert_sorted
  insert_sorted-All_inv P x [] all = (all.0, tt)
  insert_sorted-All_inv P x (y ∷ ys) all = elim (Bool-cases (key_le (key x) (key y))) [
    | inl here ↦ rw here at all
    | inr later ↦
        let all' : P y × All P (insert_sorted x ys) = rw later at all in
        let (p, rest) = insert_sorted-All_inv P x ys all'.1 in (p, (all'.0, rest))
  ]

  -- What holds of each sorted element holds of each element.
  pub sort_by_key-All_inv {κ} : (P : A → Type κ) (xs : List A) → All P (sort_by_key xs) → All P xs
  unfolding sort_by_key
  sort_by_key-All_inv P [] all = tt
  sort_by_key-All_inv P (x ∷ xs) all =
      let (p, rest) = insert_sorted-All_inv P x (sort_by_key xs) all in
      (p, sort_by_key-All_inv P xs rest)

module _ {A : Type 0} where
  -- Put an element at the front of the first chunk.
  unfoldable pub join_chunk : A → List (List A) → List (List A)
  join_chunk x [] = (x ∷ []) ∷ []
  join_chunk x (c ∷ cs) = (x ∷ c) ∷ cs

  -- `room` elements still fit into the current chunk.
  unfoldable pub chunks_from : ℕ → ℕ → List A → List (List A)
  chunks_from size room [] = []
  chunks_from size room (x ∷ xs) =
      let rest = chunks_from size (if nat_beq room 1 then size else room - 1) xs in
      if nat_beq room 1 then (x ∷ []) ∷ rest else join_chunk x rest

  unfoldable pub chunks : ℕ → List A → List (List A)
  unfolding chunks_from join_chunk
  chunks size xs = chunks_from size size xs

  unfoldable pub join_all : List (List A) → List A
  join_all [] = []
  join_all (c ∷ cs) = c ++ join_all cs

  join_chunk-join : (x : A) (cs : List (List A)) → join_all (join_chunk x cs) ≡ x ∷ join_all cs
  unfolding join_all join_chunk
  join_chunk-join x [] = refl
  join_chunk-join x (c ∷ cs) = refl

  chunks_from-join : (size room : ℕ) (xs : List A) → join_all (chunks_from size room xs) ≡ xs
  unfolding join_all chunks_from
  chunks_from-join size room [] = refl
  chunks_from-join size room (x ∷ xs) = ground (
    arith,
    chunks_from-join size size xs,
    chunks_from-join size (room - 1) xs,
    join_chunk-join x (chunks_from size (room - 1) xs),
  )

  -- The chunks are the list, cut.
  pub chunks-join : (size : ℕ) (xs : List A) → join_all (chunks size xs) ≡ xs
  unfolding chunks
  chunks-join size xs = chunks_from-join size size xs

  pub All-join {κ} :
      (P : A → Type κ) (cs : List (List A)) → All (λ c. All P c) cs → All P (join_all cs)
  unfolding join_all
  All-join P [] all = tt
  All-join P (c ∷ cs) all = All-append P c (join_all cs) all.0 (All-join P cs all.1)

  -- What holds of each element of each chunk holds of each element.
  pub chunks-All {κ} :
      (P : A → Type κ) (size : ℕ) (xs : List A) → All (λ c. All P c) (chunks size xs) → All P xs
  chunks-All P size xs all =
      subst (λ (ys : List A). All P ys) (chunks-join size xs) (All-join P (chunks size xs) all)
