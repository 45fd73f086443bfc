-- ===== src/Base/Chars.antt =====
-- Texts as sequences of characters: `chars().map`, `chars().take` and predicates on them. A native
-- text is its own list of characters.
use Prim.Native.Nat.{ℕ, zero, suc, ◌≤◌}
use Prim.Native.Char.{Char, code}
use Prim.Native.String.{String}
use mathlib.Core.Path.{◌≡◌, refl}
use mathlib.Core.Bool.{Bool, true, false, ◌&&◌, ◌||◌}
use native.Mathlib.Omega.{arith}
use essentials_merchant.Base.Tests.{leb, ltb, ◌==◌, if◌then◌else◌}

abbrev pub map_chars : (Char → Char) → String → String
map_chars f String.[] = String.[]
map_chars f (String.◌∷◌ c s) = String.◌∷◌ (f c) (map_chars f s)

abbrev pub take_chars : ℕ → String → String
take_chars zero s = String.[]
take_chars (suc n) String.[] = String.[]
take_chars (suc n) (String.◌∷◌ c s) = String.◌∷◌ c (take_chars n s)

abbrev pub count_chars : String → ℕ
count_chars String.[] = 0
count_chars (String.◌∷◌ c s) = suc (count_chars s)

abbrev pub all_chars : (Char → Bool) → String → Bool
all_chars p String.[] = true
all_chars p (String.◌∷◌ c s) = p c && all_chars p s

abbrev pub any_char : (Char → Bool) → String → Bool
any_char p String.[] = false
any_char p (String.◌∷◌ c s) = p c || any_char p s

abbrev pub is_empty : String → Bool
is_empty String.[] = true
is_empty (String.◌∷◌ c s) = false

-- `char::is_control`: the category Cc.
abbrev pub is_control : Char → Bool
is_control c = ltb (code c) 32 || (leb 127 (code c) && leb (code c) 159)

abbrev pub is_ascii_digit : Char → Bool
is_ascii_digit c = leb 48 (code c) && leb (code c) 57

abbrev pub is_ascii_uppercase : Char → Bool
is_ascii_uppercase c = leb 65 (code c) && leb (code c) 90

abbrev pub is_ascii_lowercase : Char → Bool
is_ascii_lowercase c = leb 97 (code c) && leb (code c) 122

abbrev pub is_ascii_alphanumeric : Char → Bool
is_ascii_alphanumeric c = is_ascii_digit c || is_ascii_uppercase c || is_ascii_lowercase c

-- The bytes of a character in UTF-8, for `str::len`.
abbrev pub utf8_len : Char → ℕ
utf8_len c =
    if ltb (code c) 128
    then 1
    else if ltb (code c) 2048
    then 2
    else if ltb (code c) 65536
    then 3
    else 4

abbrev pub byte_len : String → ℕ
byte_len String.[] = 0
byte_len (String.◌∷◌ c s) = Prim.Native.Nat.◌+◌ (utf8_len c) (byte_len s)

pub count_chars-take_chars : (n : ℕ) (s : String) → count_chars (take_chars n s) ≤ n
count_chars-take_chars zero s = omega arith
count_chars-take_chars (suc n) String.[] = omega arith
count_chars-take_chars (suc n) (String.◌∷◌ c s) = omega (arith, count_chars-take_chars n s)

pub all_chars-take_chars :
    (p : Char → Bool) (n : ℕ) (s : String)
    → all_chars p s ≡ true
    → all_chars p (take_chars n s) ≡ true
all_chars-take_chars p zero s h = refl
all_chars-take_chars p (suc n) String.[] h = refl
all_chars-take_chars p (suc n) (String.◌∷◌ c s) h = ground (arith, all_chars-take_chars p n s)

pub all_chars-map_chars :
    (p : Char → Bool) (f : Char → Char) (s : String)
    → ((c : Char) → p (f c) ≡ true)
    → all_chars p (map_chars f s) ≡ true
all_chars-map_chars p f String.[] h = refl
all_chars-map_chars p f (String.◌∷◌ c s) h = ground (arith, h c, all_chars-map_chars p f s h)

-- `char::is_whitespace`: the property White_Space.
abbrev pub is_whitespace : Char → Bool
is_whitespace c =
    (leb 9 (code c) && leb (code c) 13)
    || code c == 32
    || code c == 133
    || code c == 160
    || code c == 5760
    || (leb 8192 (code c) && leb (code c) 8202)
    || code c == 8232
    || code c == 8233
    || code c == 8239
    || code c == 8287
    || code c == 12288

-- `s.trim().is_empty()`
unfoldable pub is_blank : String → Bool
is_blank s = all_chars is_whitespace s
