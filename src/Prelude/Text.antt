-- ===== src/Prelude/Text.antt =====
-- Texts as the source tests them: `strip()`, and the fixed patterns it gives to `re.fullmatch`.
use Prim.Native.Nat.{ℕ, zero, suc, ◌/◌, ◌%◌}
use Prim.Native.Char.{Char, code}
use Prim.Native.String.{String}
pub use Prim.Native.String.{◌++◌ as concat}
use mathlib.Core.Path.{◌≡◌, refl}
use mathlib.Core.Bool.{Bool, true, false, not, ◌&&◌, ◌||◌}
use mathlib.Core.List.{List, [], ◌∷◌}
use nortropic_runtime.Prelude.Tests.{leb, ltb, ◌==◌, if◌then◌else◌}
use nortropic_runtime.Prelude.Lists.{length, all, any}

-- The code points of a text.
abbrev pub codes : String → List ℕ
codes String.[] = []
codes (String.◌∷◌ c s) = code c ∷ codes s

-- The characters that Python's `str.strip` removes.
is_space : ℕ → Bool
is_space c =
    (leb 9 c && leb c 13)
    || (leb 28 c && leb c 32)
    || c == 133
    || c == 160
    || c == 5760
    || (leb 8192 c && leb c 8202)
    || c == 8232
    || c == 8233
    || c == 8239
    || c == 8287
    || c == 12288

-- `s.strip()` is not empty.
unfoldable pub has_words : String → Bool
unfolding is_space
has_words s = any (λ c. not (is_space c)) (codes s)

is_digit : ℕ → Bool
is_digit c = leb b'0' c && leb c b'9'

is_lower : ℕ → Bool
is_lower c = leb b'a' c && leb c b'z'

is_hex_digit : ℕ → Bool
unfolding is_digit
is_hex_digit c = is_digit c || (leb b'a' c && leb c b'f')

unfoldable pub is_hex_codes : ℕ → List ℕ → Bool
unfolding is_hex_digit
is_hex_codes n cs = length cs == n && all is_hex_digit cs

-- `re.fullmatch('[0-9a-f]{n}', s)`
unfoldable pub is_hex : ℕ → String → Bool
unfolding is_hex_codes
is_hex n s = is_hex_codes n (codes s)

abbrev pub eq_codes : List ℕ → List ℕ → Bool
eq_codes [] [] = true
eq_codes (c ∷ cs) (d ∷ ds) = c == d && eq_codes cs ds
eq_codes _ _ = false

starts_identifier : ℕ → Bool
unfolding is_lower is_digit
starts_identifier c = is_lower c || is_digit c

matches_identifier : List ℕ → Bool
unfolding starts_identifier
matches_identifier [] = false
matches_identifier (c ∷ cs) =
    starts_identifier c && leb (length cs) 79 && all (λ x. starts_identifier x || x == b'-') cs

-- `re.fullmatch('[a-z0-9][a-z0-9-]{0,79}', s)`
unfoldable pub is_identifier : String → Bool
unfolding matches_identifier
is_identifier s = matches_identifier (codes s)

identifier_samples :
    (is_identifier "task-1" ≡ true)
    × (is_identifier "-task" ≡ false)
    × (is_identifier "" ≡ false)
    × (is_hex 4 "00af" ≡ true)
    × (is_hex 4 "00AF" ≡ false)
    × (has_words " \n" ≡ false)
    × (has_words " why " ≡ true)
unfolding is_identifier is_hex has_words
identifier_samples = (refl, refl, refl, refl, refl, refl, refl)

-- The character at a place, as a text.
abbrev character_at : String → ℕ → String
character_at String.[] n = ""
character_at (String.◌∷◌ c s) zero = String.◌∷◌ c String.[]
character_at (String.◌∷◌ c s) (suc n) = character_at s n

abbrev pub digit : ℕ → String
digit n = character_at "0123456789" n

-- Each step divides by 10, so a number itself is enough fuel.
unfoldable pub decimal_within : ℕ → ℕ → String
decimal_within zero n = digit n
decimal_within (suc fuel) n =
    let rest = decimal_within fuel (n / 10) in
    if ltb n 10 then digit n else concat rest (digit (n % 10))

-- `str(n)`
unfoldable pub decimal : ℕ → String
unfolding decimal_within
decimal n = decimal_within n n

decimal_samples : (decimal 0 ≡ "0") × (decimal 7 ≡ "7") × (decimal 1203 ≡ "1203")
unfolding decimal
decimal_samples = (refl, refl, refl)

abbrev add_character : Char → List String → List String
add_character c [] = String.◌∷◌ c String.[] ∷ []
add_character c (word ∷ rest) = String.◌∷◌ c word ∷ rest

-- The parts between the characters that the test holds of.
unfoldable pub split_when : (ℕ → Bool) → String → List String
split_when test String.[] = "" ∷ []
split_when test (String.◌∷◌ c s) =
    let rest = split_when test s in if test (code c) then "" ∷ rest else add_character c rest

abbrev is_empty : String → Bool
is_empty String.[] = true
is_empty (String.◌∷◌ _ _) = false

-- The parts that are not empty.
abbrev pub nonempty : List String → List String
nonempty [] = []
nonempty (s ∷ ss) = let rest = nonempty ss in if is_empty s then rest else s ∷ rest

-- `s.split()`
unfoldable pub words : String → List String
unfolding split_when is_space
words s = nonempty (split_when is_space s)

words_sample : words " ab  c\n" ≡ "ab" ∷ "c" ∷ []
unfolding words
words_sample = refl
