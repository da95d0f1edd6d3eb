-- ===== src/Api/Etherscan/Answers.antt =====
-- What the shim answers to the two queries of the tables.
use indexer_rs.Base.{
  ◌≡◌, refl, inl, inr, ℤ, ◌≤ℤ◌, leb_ℤ, String, Bool, true, false, some, keep, arith, All-keep, ok,
  ◌==◌, string_eq, Bool-cases,
}
use indexer_rs.Base.Text.{parse_i64}
use indexer_rs.Base.Text.Print.{to_string}
use indexer_rs.Domain.{Block}
use indexer_rs.Db.Schema.{Db}
use indexer_rs.Api.Listing.{among}
use indexer_rs.Api.Listing.Pages.{keep-among}
use indexer_rs.Api.Listing.Front.{Elem, All-Elem, front-greatest, front-least}
use indexer_rs.Api.Etherscan.{
  EsQuery, text, es_ok, or_text, time_of, block_after, block_before, getblocknobytime,
}

-- A time that `closest=after` may answer for `ts`, and one that `closest=before` may.
abbrev pub OnSide : Bool → ℤ → ℤ → Type 0
OnSide true ts k = ts ≤ℤ k
OnSide false ts k = k ≤ℤ ts

abbrev pub Found : Bool → ℤ → ℤ → Db → Block → Type 0
Found after ts k db b = Elem b db.blocks × OnSide after ts b.timestamp × OnSide after b.timestamp k

block_before-closest :
    (ts k : ℤ) (db : Db)
    → among time_of k db.blocks ≡ true
    → k ≤ℤ ts
    → (b : Block) × ((block_before ts db ≡ some b) × Found false ts k db b)
unfolding block_before
block_before-closest ts k db stored early =
    let allowed = λ (v : ℤ). leb_ℤ v ts in
    let inside = λ (b : Block). Elem b db.blocks × (b.timestamp ≤ℤ ts) in
    let passes : allowed k ≡ true = ground arith in
    let kept =
      All-keep (λ (b : Block). Elem b db.blocks) inside (λ (b : Block). allowed b.timestamp)
        db.blocks (λ b e p. (e, ground (arith, p))) (All-Elem db.blocks) in
    let (b, (e, p, le)) =
      front-greatest time_of inside k (keep (λ (b : Block). allowed b.timestamp) db.blocks) kept
        (keep-among time_of allowed k db.blocks passes stored) in
    (b, (e, (p.0, p.1, le)))

block_after-closest :
    (ts k : ℤ) (db : Db)
    → among time_of k db.blocks ≡ true
    → ts ≤ℤ k
    → (b : Block) × ((block_after ts db ≡ some b) × Found true ts k db b)
unfolding block_after
block_after-closest ts k db stored late =
    let allowed = λ (v : ℤ). leb_ℤ ts v in
    let inside = λ (b : Block). Elem b db.blocks × (ts ≤ℤ b.timestamp) in
    let passes : allowed k ≡ true = ground arith in
    let kept =
      All-keep (λ (b : Block). Elem b db.blocks) inside (λ (b : Block). allowed b.timestamp)
        db.blocks (λ b e p. (e, ground (arith, p))) (All-Elem db.blocks) in
    let (b, (e, p, le)) =
      front-least time_of inside k (keep (λ (b : Block). allowed b.timestamp) db.blocks) kept
        (keep-among time_of allowed k db.blocks passes stored) in
    (b, (e, (p.0, p.1, le)))

-- Let the timestamp parse, and let some stored block have a time `k` on the side of it that `closest` asks
-- for: from it on for "after", up to it for all else. Then `getblocknobytime` answers with the height of a
-- stored block that is on that side too, and no further from the timestamp than `k`.
pub getblocknobytime-closest :
    (q : EsQuery) (s : String) (ts k : ℤ) (db : Db)
    → q.timestamp ≡ some s
    → parse_i64 s ≡ some ts
    → among time_of k db.blocks ≡ true
    → OnSide (or_text "before" q.closest == "after") ts k
    → (b : Block) × ((getblocknobytime (ok db) q ≡ es_ok (text (to_string b.height)))
        × Found (or_text "before" q.closest == "after") ts k db b)
unfolding getblocknobytime
getblocknobytime-closest q s ts k db given parsed stored side =
    elim (Bool-cases (or_text "before" q.closest == "after")) [
      | inl after ↦
          let (b, (e, found)) = block_after-closest ts k db stored (rw after at side) in
          rw after (b, (rw (getblocknobytime, given, parsed, after, e) refl, found))
      | inr before ↦
          let (b, (e, found)) = block_before-closest ts k db stored (rw before at side) in
          rw before (b, (rw (getblocknobytime, given, parsed, before, e) refl, found))
    ]
