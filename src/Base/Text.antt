-- ===== src/Base/Text.antt =====
-- What the program uses of Rust's `str`: `to_lowercase`, on ASCII letters, and `parse::<i64>()`.
pub mod Print
use Prim.Native.Nat.{ℕ, ◌+◌, ◌-◌, ◌*◌, ◌^◌}
use Prim.Native.Char.{Char, code}
use Prim.Native.String.{String, char_at}
use mathlib.Core.Path.{◌≡◌, refl}
use mathlib.Core.Bool.{Bool, true, false, ◌&&◌, ◌||◌}
use mathlib.Core.Option.{Option, none, some}
use indexer_rs.Base.Tests.{leb, ltb, nat_beq, if◌then◌else◌}
use indexer_rs.Base.Int.{ℤ, pos, negsuc, sub_ℕ}

abbrev pub lower_char : Char → Char
lower_char c =
    if leb b'A' (code c) && leb (code c) b'Z'
    then char_at "abcdefghijklmnopqrstuvwxyz" (code c - b'A')
    else c

unfoldable pub to_lowercase : String → String
to_lowercase String.[] = String.[]
to_lowercase (String.◌∷◌ c s) = String.◌∷◌ (lower_char c) (to_lowercase s)

-- Digits to the end of the text, as an unsigned number.
unfoldable pub digits_from : ℕ → String → Option ℕ
digits_from n String.[] = some n
digits_from n (String.◌∷◌ c s) =
    let rest = digits_from (n * 10 + (code c - b'0')) s in
    if leb b'0' (code c) && leb (code c) b'9' then rest else none

abbrev pub some_digits : String → Option ℕ
some_digits String.[] = none
some_digits (String.◌∷◌ c s) = digits_from 0 (String.◌∷◌ c s)

abbrev pub within : Bool → Option ℕ → Option ℤ
within negative none = none
within false (some n) = if ltb n (2 ^ 63) then some (pos n) else none
within true (some n) = if leb n (2 ^ 63) then some (sub_ℕ 0 n) else none

-- A sign, then digits; none outside of the range of an `i64`.
unfoldable pub parse_i64 : String → Option ℤ
unfolding digits_from
parse_i64 String.[] = none
parse_i64 (String.◌∷◌ c s) =
    if nat_beq (code c) b'-'
    then within true (some_digits s)
    else if nat_beq (code c) b'+'
    then within false (some_digits s)
    else within false (some_digits (String.◌∷◌ c s))

-- The characters of White_Space, which `str::trim` drops.
abbrev pub is_whitespace : Char → Bool
is_whitespace c =
    let n = code c in
    (leb 9 n && leb n 13)
    || nat_beq n 32
    || nat_beq n 133
    || nat_beq n 160
    || nat_beq n 5760
    || (leb 8192 n && leb n 8202)
    || nat_beq n 8232
    || nat_beq n 8233
    || nat_beq n 8239
    || nat_beq n 8287
    || nat_beq n 12288

unfoldable pub trim_start : String → String
trim_start String.[] = String.[]
trim_start (String.◌∷◌ c s) =
    let rest = trim_start s in if is_whitespace c then rest else String.◌∷◌ c s

abbrev pub keep_before : (Char → Bool) → Char → String → String
keep_before p c String.[] = if p c then String.[] else String.◌∷◌ c String.[]
keep_before p c (String.◌∷◌ d s) = String.◌∷◌ c (String.◌∷◌ d s)

-- `trim_end_matches`.
unfoldable pub trim_end_matches : (Char → Bool) → String → String
trim_end_matches p String.[] = String.[]
trim_end_matches p (String.◌∷◌ c s) = keep_before p c (trim_end_matches p s)

unfoldable pub trim : String → String
unfolding trim_start trim_end_matches
trim s = trim_end_matches is_whitespace (trim_start s)

negative_read : parse_i64 "-12" ≡ some (negsuc 11)
unfolding parse_i64
negative_read = refl

sign_alone : parse_i64 "-" ≡ none
unfolding parse_i64
sign_alone = refl

lower_hex : to_lowercase "0xAbF" ≡ "0xabf"
unfolding to_lowercase
lower_hex = refl
