-- ===== src/Base/Text/Print.antt =====
-- `to_string` of an `i64`, and that `parse::<i64>()` reads it back.
use Prim.Native.Nat.{ℕ, zero, suc, ◌+◌, ◌-◌, ◌*◌, ◌/◌, ◌%◌, ◌^◌, ◌≤◌, ◌<◌}
use Prim.Native.Char.{Char, code}
use Prim.Native.String.{String, char_at}
use mathlib.Core.Path.{◌≡◌, refl, ap, ◌∙◌}
use mathlib.Core.Logic.{inl, inr}
use mathlib.Core.Bool.{true, false}
use mathlib.Core.Option.{some}
use native.Mathlib.Omega.{arith}
use indexer_rs.Base.Tests.{nat_beq, if◌then◌else◌, Bool-cases}
use indexer_rs.Base.Int.{ℤ, pos, negsuc}
use indexer_rs.Base.Text.{digits_from, some_digits, within, parse_i64}

abbrev pub digit : ℕ → Char
digit d = char_at "0123456789" d

abbrev pub digit_value : Char → ℕ
digit_value c = code c - b'0'

-- At most 10 values: each is looked up.
pub code-digit : (d : ℕ) → d < 10 → code (digit d) ≡ b'0' + d
code-digit zero h = refl
code-digit (suc zero) h = refl
code-digit (suc (suc zero)) h = refl
code-digit (suc (suc (suc zero))) h = refl
code-digit (suc (suc (suc (suc zero)))) h = refl
code-digit (suc (suc (suc (suc (suc zero))))) h = refl
code-digit (suc (suc (suc (suc (suc (suc zero)))))) h = refl
code-digit (suc (suc (suc (suc (suc (suc (suc zero))))))) h = refl
code-digit (suc (suc (suc (suc (suc (suc (suc (suc zero)))))))) h = refl
code-digit (suc (suc (suc (suc (suc (suc (suc (suc (suc zero))))))))) h = refl
code-digit (suc (suc (suc (suc (suc (suc (suc (suc (suc (suc d)))))))))) h = absurd (omega arith)

-- The digits of a number before a text; a number below `10 ^ fuel` has at most `fuel` digits.
unfoldable pub emit : ℕ → ℕ → String → String
emit zero n out = out
emit (suc fuel) n out =
    let more = emit fuel (n / 10) (String.◌∷◌ (digit (n % 10)) out) in
    if nat_beq n 0 then out else more

-- 20 digits are enough for an `i64`.
unfoldable pub print_ℕ : ℕ → String
print_ℕ n = if nat_beq n 0 then "0" else emit 20 n ""

unfoldable pub to_string : ℤ → String
unfolding print_ℕ
to_string (pos n) = print_ℕ n
to_string (negsuc n) = String.◌∷◌ "-" (print_ℕ (suc n))

abbrev ten_to : ℕ → ℕ
ten_to zero = 1
ten_to (suc k) = 10 * ten_to k

digits_from-digit :
    (n : ℕ) (out : String)
    → digits_from (n / 10) (String.◌∷◌ (digit (n % 10)) out) ≡ digits_from n out
unfolding digits_from
digits_from-digit n out = ground (arith, code-digit (n % 10) (omega arith))

digits_from-emit :
    (fuel n : ℕ) (out : String)
    → n < ten_to fuel
    → digits_from 0 (emit fuel n out) ≡ digits_from n out
unfolding emit
digits_from-emit zero n out h = ground (arith, h)
digits_from-emit (suc fuel) n out h = elim (Bool-cases (nat_beq n 0)) [
  | inl z ↦ rw z (ground (arith, z))
  | inr nz ↦ rw nz (
      digits_from-emit fuel (n / 10) (String.◌∷◌ (digit (n % 10)) out) (omega arith)
      ∙ digits_from-digit n out)
]

-- A text that begins with a digit.
abbrev Numeral : String → Type 0
Numeral s = (c : Char) × ((t : String) × ((s ≡ String.◌∷◌ c t) × (b'0' ≤ code c)))

emit-Numeral : (fuel n : ℕ) (out : String) → Numeral out → Numeral (emit fuel n out)
unfolding emit
emit-Numeral zero n out h = h
emit-Numeral (suc fuel) n out h = elim (Bool-cases (nat_beq n 0)) [
  | inl z ↦ rw z h
  | inr nz ↦
      let d = digit (n % 10) in
      let big : b'0' ≤ code d = omega (arith, code-digit (n % 10) (omega arith)) in
      rw nz (emit-Numeral fuel (n / 10) (String.◌∷◌ d out) (d, (out, (refl, big))))
]

emit_positive-Numeral :
    (fuel n : ℕ) (out : String) → nat_beq n 0 ≡ false → Numeral (emit (suc fuel) n out)
unfolding emit
emit_positive-Numeral fuel n out nz =
    let d = digit (n % 10) in
    let big : b'0' ≤ code d = omega (arith, code-digit (n % 10) (omega arith)) in
    rw nz (emit-Numeral fuel (n / 10) (String.◌∷◌ d out) (d, (out, (refl, big))))

print_ℕ-Numeral : (n : ℕ) → Numeral (print_ℕ n)
unfolding print_ℕ
print_ℕ-Numeral n = elim (Bool-cases (nat_beq n 0)) [
  | inl z ↦ rw z ("0", ("", (refl, omega arith)))
  | inr nz ↦ rw nz (emit_positive-Numeral 19 n "" nz)
]

some_digits-Numeral : (s : String) → Numeral s → some_digits s ≡ digits_from 0 s
some_digits-Numeral String.[] (c, (t, (e, big))) = absurd (cc)
some_digits-Numeral (String.◌∷◌ c s) h = refl

parse_i64-Numeral : (s : String) → Numeral s → parse_i64 s ≡ within false (digits_from 0 s)
unfolding parse_i64
parse_i64-Numeral s (c, (t, (e, big))) = rw e (ground (arith, big))

digits_from-print_ℕ : (n : ℕ) → n < 2 ^ 64 → digits_from 0 (print_ℕ n) ≡ some n
unfolding print_ℕ digits_from
digits_from-print_ℕ n h = elim (Bool-cases (nat_beq n 0)) [
  | inl z ↦ rw z (ground (arith, z))
  | inr nz ↦ rw nz (digits_from-emit 20 n "" (omega arith))
]

-- The values of an `i64`.
abbrev pub FitsI64 : ℤ → Type 0
FitsI64 (pos n) = n < 2 ^ 63
FitsI64 (negsuc n) = n < 2 ^ 63

pub parse-to_string : (v : ℤ) → FitsI64 v → parse_i64 (to_string v) ≡ some v
unfolding to_string parse_i64
parse-to_string (pos n) h =
    parse_i64-Numeral (print_ℕ n) (print_ℕ-Numeral n)
    ∙ ap (within false) (digits_from-print_ℕ n (omega arith))
    ∙ ground (arith, h)
parse-to_string (negsuc n) h =
    ap (within true) (
      some_digits-Numeral (print_ℕ (suc n)) (print_ℕ-Numeral (suc n))
      ∙ digits_from-print_ℕ (suc n) (omega arith))
    ∙ ground (arith, h)

print_read : to_string (negsuc 1204) ≡ "-1205"
unfolding to_string emit
print_read = refl
