-- ===== src/Chain/Rest/RoundRobin.antt =====
-- The client turns through its base URLs.
use Prim.Native.String.{String}
use native.Mathlib.Nat.{mod-eq_of_lt, mod-add-mod, mod-lt, mod_self}
use indexer_rs.Base.{
  ◌≡◌, refl, sym, ap, ◌∙◌, ℕ, zero, suc, ◌+◌, ◌-◌, ◌%◌, ◌^◌, ◌≤◌, ◌<◌, List, [], ◌∷◌, ◌++◌, take,
  length, arith,
}
use indexer_rs.Chain.Rest.{RestClient, get_or, next_base}

abbrev pub drop : ℕ → List String → List String
drop n [] = []
drop zero (x ∷ xs) = x ∷ xs
drop (suc n) (x ∷ xs) = drop n xs

-- The bases of the next calls.
abbrev pub next_bases : ℕ → RestClient → List String
next_bases zero c = []
next_bases (suc n) c = (next_base c).0 ∷ next_bases n (next_base c).1

take-drop-suc :
    (n r : ℕ) (xs : List String)
    → r < length xs
    → take (suc n) (drop r xs) ≡ get_or "" xs r ∷ take n (drop (suc r) xs)
take-drop-suc n r [] h = absurd (omega arith)
take-drop-suc n zero (x ∷ []) h = ground arith
take-drop-suc n zero (x ∷ (y ∷ xs)) h = refl
take-drop-suc n (suc r) (x ∷ []) h = absurd (omega arith)
take-drop-suc n (suc r) (x ∷ (y ∷ xs)) h = take-drop-suc n r (y ∷ xs) (omega arith)

take-zero : (xs : List String) → take 0 xs ≡ []
take-zero [] = refl
take-zero (x ∷ xs) = refl

-- The counter within its width, after some calls.
abbrev advanced : ℕ → RestClient → RestClient
advanced n c = record c { cursor = c.cursor + n }

next_base-advanced : (c : RestClient) → c.cursor + 1 < 2 ^ 64 → (next_base c).1 ≡ advanced 1 c
unfolding next_base
next_base-advanced c below = ap (λ (n : ℕ). record c { cursor = n }) (mod-eq_of_lt below)

next_place : (i r n : ℕ) → i % n ≡ r → r + 1 < n → (i + 1) % n ≡ suc r
next_place i r n at inside =
    sym (mod-add-mod i n 1) ∙ ap (λ (v : ℕ). (v + 1) % n) at ∙ mod-eq_of_lt inside ∙ omega arith

-- While the turn is not at its end, the calls read the list on from their place.
first_base :
    (c : RestClient) (r : ℕ) → c.cursor % length c.bases ≡ r → (next_base c).0 ≡ get_or "" c.bases r
unfolding next_base
first_base c r at = ap (get_or "" c.bases) at

next_bases-run :
    (n r : ℕ) (c : RestClient)
    → c.cursor % length c.bases ≡ r
    → r + n ≤ length c.bases
    → c.cursor + n < 2 ^ 64
    → next_bases n c ≡ take n (drop r c.bases)
next_bases-run zero r c at fits below = sym (take-zero (drop r c.bases))
next_bases-run (suc zero) r c at fits below =
    ap (λ (x : String). x ∷ []) (first_base c r at)
    ∙ sym (
        take-drop-suc 0 r c.bases (omega arith)
        ∙ ap (λ (ys : List String). get_or "" c.bases r ∷ ys) (take-zero (drop (suc r) c.bases)))
next_bases-run (suc (suc n)) r c at fits below =
    let place = next_place c.cursor r (length c.bases) at (omega arith) in
    let rest = next_bases-run (suc n) (suc r) (advanced 1 c) place (omega arith) (omega arith) in
    ap (λ (x : String). x ∷ next_bases (suc n) (next_base c).1) (first_base c r at)
    ∙ ap (λ (d : RestClient). get_or "" c.bases r ∷ next_bases (suc n) d)
        (next_base-advanced c (omega arith))
    ∙ ap (λ (ys : List String). get_or "" c.bases r ∷ ys) rest
    ∙ sym (take-drop-suc (suc n) r c.bases (omega arith))

next_bases-append :
    (m n : ℕ) (c : RestClient)
    → c.cursor + m < 2 ^ 64
    → next_bases (m + n) c ≡ next_bases m c ++ next_bases n (advanced m c)
next_bases-append zero n c below =
    let none_first : 0 + n ≡ n = omega arith in
    let same : c ≡ advanced 0 c = ap (λ (i : ℕ). record c { cursor = i }) (omega arith) in
    ap (λ (k : ℕ). next_bases k c) none_first ∙ ap (next_bases n) same
next_bases-append (suc m) n c below =
    let step = next_base-advanced c (omega arith) in
    let rest = next_bases-append m n (advanced 1 c) (omega arith) in
    let same : advanced m (advanced 1 c) ≡ advanced (suc m) c =
      ap (λ (i : ℕ). record c { cursor = i }) (omega arith) in
    let more : suc m + n ≡ suc (m + n) = omega arith in
    rw more (
      ap (λ (ys : List String). (next_base c).0 ∷ ys)
        (ap (next_bases (m + n)) step
          ∙ rest
          ∙ ap (λ (d : RestClient). next_bases m (advanced 1 c) ++ next_bases n d) same)
      ∙ ap
          (λ (d : RestClient).
            (next_base c).0 ∷ (next_bases m d ++ next_bases n (advanced (suc m) c)))
          (sym step))

drop-zero : (xs : List String) → drop 0 xs ≡ xs
drop-zero [] = refl
drop-zero (x ∷ xs) = refl

take-drop_rest : (r : ℕ) (xs : List String) → take (length xs - r) (drop r xs) ≡ drop r xs
take-drop_rest r [] = refl
take-drop_rest zero (x ∷ []) = refl
take-drop_rest zero (x ∷ (y ∷ xs)) =
    let all : length (x ∷ (y ∷ xs)) - 0 ≡ suc (length (y ∷ xs) - 0) = omega arith in
    rw all (
      ap (λ (ys : List String). x ∷ ys)
        (ap (take (length (y ∷ xs) - 0)) (sym (drop-zero (y ∷ xs))) ∙ take-drop_rest zero (y ∷ xs)))
take-drop_rest (suc r) (x ∷ xs) =
    let less : length (x ∷ xs) - suc r ≡ length xs - r = omega arith in
    rw less (take-drop_rest r xs)

turn_end : (i n : ℕ) → 0 < n → (i + (n - i % n)) % n ≡ 0
turn_end i n some_bases =
    sym (mod-add-mod i n (n - i % n))
    ∙ ap (λ (v : ℕ). v % n) (omega (arith, mod-lt i some_bases))
    ∙ mod_self n

-- A client with `n` bases whose counter does not reach the end of its width within the next `n` calls sends
-- them to each base once: first to those from its place on, in their order, then to those before it.
pub next_bases_turn :
    (c : RestClient)
    → 0 < length c.bases
    → c.cursor + length c.bases < 2 ^ 64
    → next_bases (length c.bases) c
      ≡ drop (c.cursor % length c.bases) c.bases ++ take (c.cursor % length c.bases) c.bases
next_bases_turn c some_bases below =
    let n = length c.bases in
    let r = c.cursor % n in
    let inside : r < n = mod-lt c.cursor some_bases in
    let split : n ≡ (n - r) + r = omega (arith, inside) in
    let late = advanced (n - r) c in
    let first =
      next_bases-run (n - r) r c refl (omega (arith, inside)) (omega (arith, inside, below)) in
    let second =
      next_bases-run r 0 late (turn_end c.cursor n some_bases) (omega (arith, inside))
        (omega (arith, inside, below)) in
    ap (λ (k : ℕ). next_bases k c) split
    ∙ next_bases-append (n - r) r c (omega (arith, inside, below))
    ∙ ap (λ (ys : List String). ys ++ next_bases r late) (first ∙ take-drop_rest r c.bases)
    ∙ ap (λ (ys : List String). drop r c.bases ++ ys) (second ∙ ap (take r) (drop-zero c.bases))
