-- ===== src/Sync/Backfill/Range.antt =====
-- Lists of heights in ascending order above a bound.
use indexer_rs.Base.{
  ◌≡◌, refl, ap, ℕ, zero, suc, ℤ, pos, ◌+ℤ◌, ◌≤ℤ◌, ◌<ℤ◌, max_ℤ, +ℤ_parts, arith, List, [], ◌∷◌,
  ◌++◌, All,
}
use indexer_rs.Sync.BlockWriter.{BlockBundle, max_height}
use indexer_rs.Sync.Backfill.{heights_from}

abbrev pub Ascending : ℤ → List ℤ → Type 0
Ascending lo [] = Unit
Ascending lo (h ∷ hs) = (lo <ℤ h) × Ascending h hs

-- The last height, or the bound.
abbrev pub last : ℤ → List ℤ → ℤ
last lo [] = lo
last lo (h ∷ hs) = last h hs

abbrev pub heights : List BlockBundle → List ℤ
heights [] = []
heights (b ∷ buf) = b.block.height ∷ heights buf

pub heights-snoc :
    (buf : List BlockBundle) (b : BlockBundle) (hs : List ℤ)
    → heights (buf ++ b ∷ []) ++ hs ≡ heights buf ++ b.block.height ∷ hs
heights-snoc [] b hs = refl
heights-snoc (c ∷ buf) b hs = ap (λ xs. c.block.height ∷ xs) (heights-snoc buf b hs)

pub Ascending-rest : (lo : ℤ) (xs ys : List ℤ) → Ascending lo (xs ++ ys) → Ascending (last lo xs) ys
Ascending-rest lo [] ys a = a
Ascending-rest lo (x ∷ xs) ys a = Ascending-rest x xs ys a.1

pub Ascending-first : (lo : ℤ) (xs ys : List ℤ) → Ascending lo (xs ++ ys) → Ascending lo xs
Ascending-first lo [] ys a = tt
Ascending-first lo (x ∷ xs) ys a = (a.0, Ascending-first x xs ys a.1)

pub last-above : (lo : ℤ) (xs : List ℤ) → Ascending lo xs → lo ≤ℤ last lo xs
last-above lo [] a = omega arith
last-above lo (x ∷ xs) a = let h = last-above x xs a.1 in let k = a.0 in omega arith

-- The highest of an ascending buffer is its last.
pub max_height-last :
    (b : BlockBundle) (buf : List BlockBundle)
    → Ascending b.block.height (heights buf)
    → max_height b buf ≡ last b.block.height (heights buf)
unfolding max_height
max_height-last b [] a = refl
max_height-last b (c ∷ buf) a =
    let le = last-above c.block.height (heights buf) a.1 in
    let lt = a.0 in rw (max_height-last c buf a.1) (max_ℤ-later b.block.height _ (omega arith))
  where
    max_ℤ-later : (x y : ℤ) → x ≤ℤ y → max_ℤ x y ≡ y
    max_ℤ-later x y le = ground arith

-- Nothing of a list above the bound is at or below it.
pub Ascending-None :
    (P : ℤ → Type 0) (c lo : ℤ) (hs : List ℤ)
    → c ≤ℤ lo
    → Ascending lo hs
    → All (λ k. k ≤ℤ c → P k) hs
Ascending-None P c lo [] le a = tt
Ascending-None P c lo (h ∷ hs) le a =
    let lt = a.0 in (λ k. absurd (omega arith), Ascending-None P c h hs (omega arith) a.1)

pub heights_from-Ascending : (lo h : ℤ) (n : ℕ) → lo <ℤ h → Ascending lo (heights_from h n)
unfolding heights_from
heights_from-Ascending lo h zero lt = tt
heights_from-Ascending lo h (suc n) lt =
    (lt, heights_from-Ascending h (h +ℤ pos 1) n (next_above h))
  where
    next_above : (h : ℤ) → h <ℤ (h +ℤ pos 1)
    next_above h = omega (arith, +ℤ_parts h (pos 1))
