-- ===== src/IntegrationAuth/Integers.antt =====
-- i64 as the source uses it: `parse::<i64>`, its decimal text, and the absolute difference of two
-- values with the wrap-around of a release build.
use Prim.Native.String.{◌++◌ as append_text}
use Prim.Native.Char.{code}
use essentials_merchant.Base.{
  ℕ, zero, suc, ℤ, pos, negsuc, ◌+◌, ◌-◌, ◌*◌, ◌/◌, ◌%◌, ◌^◌, String, Bool, false, Option, none,
  some, if◌then◌else◌, ◌==◌, leb, ltb, is_ascii_digit,
}

abbrev pub i64_limit : ℕ
i64_limit = 2 ^ 63

-- The digits of a text, after the value of those before them.
parse_digits : ℕ → String → Option ℕ
parse_digits n String.[] = some n
parse_digits n (String.◌∷◌ c s) =
    let rest = parse_digits (n * 10 + (code c - 48)) s in if is_ascii_digit c then rest else none

-- At least one digit.
parse_nat : String → Option ℕ
unfolding parse_digits
parse_nat String.[] = none
parse_nat (String.◌∷◌ c s) = parse_digits 0 (String.◌∷◌ c s)

positive : Option ℕ → Option ℤ
positive none = none
positive (some n) = if ltb n i64_limit then some (pos n) else none

negative : Option ℕ → Option ℤ
negative none = none
negative (some zero) = some (pos 0)
negative (some (suc n)) = if ltb n i64_limit then some (negsuc n) else none

-- An optional sign, then digits, within the range of i64.
unfoldable pub parse_i64 : String → Option ℤ
unfolding positive negative parse_nat
parse_i64 String.[] = none
parse_i64 (String.◌∷◌ c s) =
    if code c == b'-'
    then negative (parse_nat s)
    else if code c == b'+'
    then positive (parse_nat s)
    else positive (parse_nat (String.◌∷◌ c s))

abbrev digit : ℕ → String
digit zero = "0"
digit (suc zero) = "1"
digit (suc (suc zero)) = "2"
digit (suc (suc (suc zero))) = "3"
digit (suc (suc (suc (suc zero)))) = "4"
digit (suc (suc (suc (suc (suc zero))))) = "5"
digit (suc (suc (suc (suc (suc (suc zero)))))) = "6"
digit (suc (suc (suc (suc (suc (suc (suc zero))))))) = "7"
digit (suc (suc (suc (suc (suc (suc (suc (suc zero)))))))) = "8"
digit (suc (suc (suc (suc (suc (suc (suc (suc (suc n))))))))) = "9"

-- The decimal digits of a number in front of a text; an i64 has nineteen at most.
show_digits : ℕ → ℕ → String → String
show_digits zero n rest = rest
show_digits (suc places) n rest =
    let more = show_digits places (n / 10) (append_text (digit (n % 10)) rest) in
    if ltb n 10 then append_text (digit n) rest else more

unfoldable pub show_i64 : ℤ → String
unfolding show_digits
show_i64 (pos n) = show_digits 20 n ""
show_i64 (negsuc n) = append_text "-" (show_digits 20 (suc n) "")

-- `(now - timestamp).abs()` for a clock that is not negative: past the largest value the difference
-- wraps, and the smallest value is its own absolute value.
unfoldable pub age_i64 : ℕ → ℤ → ℤ
age_i64 now (pos t) = if leb t now then pos (now - t) else pos (t - now)
age_i64 now (negsuc n) =
    let d = now + n + 1 in
    if ltb d i64_limit
    then pos d
    else if d == i64_limit
    then negsuc (i64_limit - 1)
    else pos (2 ^ 64 - d)

unfoldable pub exceeds : ℤ → ℕ → Bool
exceeds (pos n) limit = ltb limit n
exceeds (negsuc n) limit = false
