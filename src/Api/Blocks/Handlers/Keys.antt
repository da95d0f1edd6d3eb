-- ===== src/Api/Blocks/Handlers/Keys.antt =====
-- The cache key of a page tells its limit and its `before`.
use indexer_rs.Base.{
  ◌≡◌, refl, sym, ap, ◌∙◌, ℕ, zero, suc, ◌/◌, ◌%◌, ℤ, pos, negsuc, String, Option, none, some,
  arith, nat_beq, if◌then◌else◌, Bool-cases, inl, inr, false,
}
use Prim.Native.String.{◌++◌}
use text.Mathlib.TextLemmas.{nil-append, cons-append, append_cancel_left}
use Prim.Native.Char.{code}
use indexer_rs.Base.Text.{parse_i64}
use indexer_rs.Base.Text.Print.{
  digit, code-digit, emit, print_ℕ, to_string, FitsI64, parse-to_string,
}
use indexer_rs.Domain.{BlockHeight}
use indexer_rs.Api.Blocks.Handlers.{before_text, list_key}

-- The text up to the first colon, and the text after it.
until_colon : String → String
until_colon String.[] = String.[]
until_colon (String.◌∷◌ c s) =
    let rest = until_colon s in if nat_beq (code c) b':' then String.[] else String.◌∷◌ c rest

after_colon : String → String
after_colon String.[] = String.[]
after_colon (String.◌∷◌ c s) = let rest = after_colon s in if nat_beq (code c) b':' then s else rest

abbrev NoColon : String → Type 0
NoColon String.[] = Unit
NoColon (String.◌∷◌ c s) = (nat_beq (code c) b':' ≡ false) × NoColon s

colon_first : (t : String) → ":" ++ t ≡ String.◌∷◌ ":" t
colon_first t = cons-append ":" String.[] t ∙ ap (λ (r : String). String.◌∷◌ ":" r) (nil-append t)

until-NoColon : (s t : String) → NoColon s → until_colon (s ++ (":" ++ t)) ≡ s
unfolding until_colon
until-NoColon String.[] t h = rw (nil-append (":" ++ t), colon_first t) refl
until-NoColon (String.◌∷◌ c s) t h =
    rw (cons-append c s (":" ++ t), until_colon, h.0)
      (ap (λ (r : String). String.◌∷◌ c r) (until-NoColon s t h.1))

after-NoColon : (s t : String) → NoColon s → after_colon (s ++ (":" ++ t)) ≡ t
unfolding after_colon
after-NoColon String.[] t h = rw (nil-append (":" ++ t), colon_first t) refl
after-NoColon (String.◌∷◌ c s) t h =
    rw (cons-append c s (":" ++ t), after_colon, h.0) (after-NoColon s t h.1)

emit-NoColon : (fuel n : ℕ) (out : String) → NoColon out → NoColon (emit fuel n out)
unfolding emit
emit-NoColon zero n out h = h
emit-NoColon (suc fuel) n out h = elim (Bool-cases (nat_beq n 0)) [
  | inl z ↦ rw z h
  | inr nz ↦
      let plain : nat_beq (code (digit (n % 10))) b':' ≡ false =
        ground (arith, code-digit (n % 10) (omega arith)) in
      rw nz (emit-NoColon fuel (n / 10) (String.◌∷◌ (digit (n % 10)) out) (plain, h))
]

print_ℕ-NoColon : (n : ℕ) → NoColon (print_ℕ n)
unfolding print_ℕ
print_ℕ-NoColon n = elim (Bool-cases (nat_beq n 0)) [
  | inl z ↦ rw z (refl, tt)
  | inr nz ↦ rw nz (emit-NoColon 20 n "" tt)
]

to_string-NoColon : (v : ℤ) → NoColon (to_string v)
unfolding to_string
to_string-NoColon (pos n) = print_ℕ-NoColon n
to_string-NoColon (negsuc n) = (refl, print_ℕ-NoColon (suc n))

-- The values that a query can have.
abbrev pub FitsBefore : Option BlockHeight → Type 0
FitsBefore none = Unit
FitsBefore (some h) = FitsI64 h

parse-before_text : (b : Option BlockHeight) → FitsBefore b → parse_i64 (before_text b) ≡ b
unfolding parse_i64
parse-before_text none fits = refl
parse-before_text (some h) fits = parse-to_string h fits

-- The two numbers of the text after the prefix.
abbrev read_rest : String → Option ℤ × Option BlockHeight
read_rest rest = (parse_i64 (until_colon rest), parse_i64 (after_colon rest))

abbrev rest_of : ℤ → Option BlockHeight → String
rest_of limit before = to_string limit ++ (":" ++ before_text before)

read-rest_of :
    (limit : ℤ) (before : Option BlockHeight)
    → FitsI64 limit
    → FitsBefore before
    → read_rest (rest_of limit before) ≡ (some limit, before)
read-rest_of limit before fits fits_before =
    let numeral = to_string-NoColon limit in
    rw
      (
        until-NoColon (to_string limit) (before_text before) numeral,
        after-NoColon (to_string limit) (before_text before) numeral,
        parse-to_string limit fits,
        parse-before_text before fits_before,
      )
      refl

-- Two queries with one key are the same.
pub list_key-inj :
    (limit limit' : ℤ) (before before' : Option BlockHeight)
    → FitsI64 limit
    → FitsI64 limit'
    → FitsBefore before
    → FitsBefore before'
    → list_key limit before ≡ list_key limit' before'
    → (limit ≡ limit') × (before ≡ before')
unfolding list_key
list_key-inj limit limit' before before' f f' g g' e =
    let rests : rest_of limit before ≡ rest_of limit' before' =
      append_cancel_left "blocks:list:" _ _ e in
    let same : ◌≡◌ {A = Option ℤ × Option BlockHeight} (some limit, before) (some limit', before') =
      sym (read-rest_of limit before f g)
      ∙ (ap read_rest rests ∙ read-rest_of limit' before' f' g') in
    (ground (arith, same), ground (arith, same))
