-- ===== src/Api/Blocks/Paging.antt =====
-- A page of blocks, its cursor, and the pages that a reader of the cursors gets.
use indexer_rs.Base.{
  take, ◌≡◌, refl, ◌∙◌, ℕ, zero, suc, ◌<◌, ℤ, pos, negsuc, pos_part, ◌≤ℤ◌, ◌<ℤ◌, ◌-ℤ◌, -ℤ_parts,
  leb_ℤ, ltb_ℤ, true, false, Option, none, some, List, [], ◌∷◌, ◌++◌, keep, keep-All, arith, All,
  All-map, Bool-cases, Option-cases, inl, inr, beq_ℤ, beq_ℤ_iff,
}
use indexer_rs.Domain.{BlockHeight, Block}
use indexer_rs.Db.Schema.{Db}
use indexer_rs.Api.Listing.{
  last, last_from, order_desc, among, Descending, order_desc-Descending, order_desc-among,
  order_desc-All,
}
use indexer_rs.Api.Listing.Pages.{take-above_last, take-among, take-All, keep-among}
use indexer_rs.Api.Blocks.{at_most, height_of, list_before, load_page, cursor_below}

-- Where the next page begins; without a cursor, below the block 0.
abbrev pub below_page : Option BlockHeight → BlockHeight
below_page none = negsuc 0
below_page (some c) = c

cursor_below-le : (b : Block) (k : ℤ) → below_page (cursor_below (some b)) <ℤ k → b.height ≤ℤ k
unfolding cursor_below
cursor_below-le b k h = elim (Bool-cases (ltb_ℤ (pos 0) b.height)) [
  | inl above ↦
      let h' : b.height -ℤ pos 1 <ℤ k = rw above at h in
      let parts = -ℤ_parts b.height (pos 1) in omega (arith, h', parts)
  | inr low ↦ let h' : negsuc 0 <ℤ k = rw low at h in ground arith
]

cursor_below-lt : (b : Block) (c : ℤ) → cursor_below (some b) ≡ some c → c <ℤ b.height
unfolding cursor_below
cursor_below-lt b c h = elim (Bool-cases (ltb_ℤ (pos 0) b.height)) [
  | inl above ↦
      let h' : some (b.height -ℤ pos 1) ≡ some c = rw above at h in
      let same : b.height -ℤ pos 1 ≡ c = cc in
      let parts = -ℤ_parts b.height (pos 1) in rw⁻¹ same (omega (arith, parts))
  | inr low ↦ let h' : none ≡ some c = rw low at h in ground arith
]

cut_complete :
    (limit : ℕ) (rows : List Block) (k : ℤ)
    → Descending height_of rows
    → 0 < limit
    → below_page (cursor_below (last (take limit rows))) <ℤ k
    → among height_of k rows ≡ true
    → among height_of k (take limit rows) ≡ true
cut_complete limit [] k d some_rows past found = found
cut_complete zero (x ∷ xs) k d some_rows past found = ground arith
cut_complete (suc n) (x ∷ xs) k d some_rows past found = elim (Bool-cases (beq_ℤ x.height k)) [
  | inl here ↦ rw here refl
  | inr later ↦
      let reached = cursor_below-le (last_from x (take n xs)) k past in
      elim (take-among height_of k n x xs d reached (rw later at found)) [
        | inl inside ↦ rw (later, inside) refl
        | inr front ↦ rw ((beq_ℤ_iff x.height k).1 front) refl
      ]
]

-- A page with a positive limit misses no block between its cursor and `before`: a height that is stored, that
-- is at most `before`, and that is above the cursor is in the page. Without a cursor this is so of every
-- stored height from 0.
pub load_page_complete :
    (before : Option BlockHeight) (limit : ℕ) (db : Db) (k : BlockHeight)
    → 0 < limit
    → at_most before k ≡ true
    → below_page (load_page before limit db).next_cursor <ℤ k
    → among height_of k db.blocks ≡ true
    → among height_of k (load_page before limit db).blocks ≡ true
unfolding load_page list_before
load_page_complete before limit db k some_rows allowed past stored =
    let rows = keep (λ (b : Block). at_most before b.height) db.blocks in
    cut_complete limit (order_desc height_of rows) k (order_desc-Descending height_of rows)
      some_rows past
      (order_desc-among height_of k rows
        ∙ keep-among height_of (at_most before) k db.blocks allowed stored)

cut_above :
    (limit : ℕ) (rows : List Block) (c : ℤ)
    → Descending height_of rows
    → cursor_below (last (take limit rows)) ≡ some c
    → All (λ (b : Block). c <ℤ b.height) (take limit rows)
cut_above limit [] c d next = tt
cut_above zero (x ∷ xs) c d next = tt
cut_above (suc n) (x ∷ xs) c d next =
    let below = cursor_below-lt (last_from x (take n xs)) c next in
    let (front, rest) = take-above_last height_of n x xs d in
    (
      omega (arith, below, front),
      All-map (λ (b : Block). (last_from x (take n xs)).height ≤ℤ b.height)
          (λ (b : Block). c <ℤ b.height) (take n xs) (λ b h. omega (arith, below, h)) rest,
    )

-- The blocks of a page are at most `before`, and with a next cursor they are all above it.
pub load_page_bounds :
    (before : Option BlockHeight) (limit : ℕ) (db : Db) (c : BlockHeight)
    → (load_page before limit db).next_cursor ≡ some c
    → All (λ (b : Block). at_most before b.height ≡ true) (load_page before limit db).blocks
      × All (λ (b : Block). c <ℤ b.height) (load_page before limit db).blocks
unfolding load_page list_before
load_page_bounds before limit db c next =
    let rows = keep (λ (b : Block). at_most before b.height) db.blocks in
    let passes = λ (b : Block). at_most before b.height ≡ true in
    (
      take-All passes limit (order_desc height_of rows) (
          order_desc-All height_of passes rows
            (keep-All (λ (b : Block). at_most before b.height) db.blocks)),
      cut_above limit (order_desc height_of rows) c (order_desc-Descending height_of rows) next,
    )

between :
    (rows : List Block) (t c : ℤ)
    → cursor_below (last rows) ≡ some c
    → All (λ (b : Block). at_most (some t) b.height ≡ true) rows
    → All (λ (b : Block). c <ℤ b.height) rows
    → c <ℤ t
unfolding cursor_below
between [] t c next low high = ground arith
between (x ∷ xs) t c next low high =
    let low' : leb_ℤ x.height t ≡ true = low.0 in
    let high' : c <ℤ x.height = high.0 in ground (arith, low', high')

pub load_page-next_lt :
    (t : BlockHeight) (limit : ℕ) (db : Db) (c : BlockHeight)
    → (load_page (some t) limit db).next_cursor ≡ some c
    → c <ℤ t
unfolding load_page
load_page-next_lt t limit db c next =
    let (low, high) = load_page_bounds (some t) limit db c next in
    between (list_before (some t) limit db) t c next low high

-- The pages that a reader gets who passes each cursor back, starting at a height.
abbrev pub walk_pages : ℕ → BlockHeight → ℕ → Db → List Block
walk_pages zero t limit db = []
walk_pages (suc n) t limit db =
    let page = load_page (some t) limit db in
    page.blocks ++ elim page.next_cursor [ none ↦ [] | some c ↦ walk_pages n c limit db ]

among-left :
    (k : ℤ) (xs ys : List Block) → among height_of k xs ≡ true → among height_of k (xs ++ ys) ≡ true
among-left k [] ys found = ground arith
among-left k (x ∷ xs) ys found = elim (Bool-cases (beq_ℤ x.height k)) [
  | inl here ↦ rw here refl
  | inr later ↦ rw later (among-left k xs ys (rw later at found))
]

among-right :
    (k : ℤ) (xs ys : List Block) → among height_of k ys ≡ true → among height_of k (xs ++ ys) ≡ true
among-right k [] ys found = found
among-right k (x ∷ xs) ys found = elim (Bool-cases (beq_ℤ x.height k)) [
  | inl here ↦ rw here refl
  | inr later ↦ rw later (among-right k xs ys found)
]

fewer_left :
    (n : ℕ) (t c k : ℤ) → c <ℤ t → k ≤ℤ c → negsuc 0 <ℤ k → pos_part t < suc n → pos_part c < n
fewer_left n t c k less reached natural fuel = ground arith

-- A reader who starts at the height `t` and passes each cursor back has met every stored height from 0 to `t`
-- after `t + 1` pages, for any positive limit.
pub walk_pages_complete :
    (n : ℕ) (t : BlockHeight) (limit : ℕ) (db : Db) (k : BlockHeight)
    → pos_part t < n
    → 0 < limit
    → negsuc 0 <ℤ k
    → k ≤ℤ t
    → among height_of k db.blocks ≡ true
    → among height_of k (walk_pages n t limit db) ≡ true
walk_pages_complete zero t limit db k fuel some_rows natural low stored = ground arith
walk_pages_complete (suc n) t limit db k fuel some_rows natural low stored =
    let page = load_page (some t) limit db in
    let allowed : leb_ℤ k t ≡ true = ground arith in
    elim (Bool-cases (ltb_ℤ (below_page page.next_cursor) k)) [
      | inl above ↦
          let past : below_page page.next_cursor <ℤ k = ground arith in
          among-left k page.blocks _
            (load_page_complete (some t) limit db k some_rows allowed past stored)
      | inr under ↦ elim (Option-cases page.next_cursor) [
        | inl none' ↦ let under' : ltb_ℤ (negsuc 0) k ≡ false = rw none' at under in ground arith
        | inr (c, next) ↦
            let under' : ltb_ℤ c k ≡ false = rw next at under in
            let reached : k ≤ℤ c = ground arith in
            let less = load_page-next_lt t limit db c next in
            among-right k page.blocks _ (
              rw next (
                walk_pages_complete n c limit db k (fewer_left n t c k less reached natural fuel)
                  some_rows natural (ground arith) stored))
      ]
    ]
