-- ===== src/Prelude/Text.antt =====
-- Text as code points, with the tests that the source writes as regular expressions.
use Prim.Native.Nat.{ℕ, zero, suc, ◌+◌, ◌/◌, ◌%◌}
use Prim.Native.Char.{code}
use Prim.Native.String.{String}
use text.Mathlib.Text.{◌==◌ as str_eq}
use mathlib.Core.Bool.{Bool, false, ◌&&◌, ◌||◌, not}
use mathlib.Core.Option.{Option, none, some}
use mathlib.Core.List.{List, [], ◌∷◌, reverse}
use weavegate.Prelude.Tests.{leb, ltb, nat_beq, if◌then◌else◌}
use weavegate.Prelude.Lists.{length, all}

abbrev pub codes : String → List ℕ
codes String.[] = []
codes (String.◌∷◌ c s) = code c ∷ codes s

-- `'a' <= c <= 'z'` and the like, for character classes.
abbrev pub between : ℕ → ℕ → ℕ → Bool
between low high c = leb low c && leb c high

-- `str.isspace` on one character, which is what `str.strip` removes.
unfoldable pub is_space : ℕ → Bool
is_space c =
    between 9 13 c
    || between 28 32 c
    || nat_beq c 0x85
    || nat_beq c 0xa0
    || nat_beq c 0x1680
    || between 0x2000 0x200a c
    || between 0x2028 0x2029 c
    || nat_beq c 0x202f
    || nat_beq c 0x205f
    || nat_beq c 0x3000

abbrev starts_with_space : List ℕ → Bool
starts_with_space [] = false
starts_with_space (c ∷ _) = is_space c

-- `value == value.strip()`: no white space at either end.
unfoldable pub is_stripped : List ℕ → Bool
unfolding is_space
is_stripped cs = not (starts_with_space cs) && not (starts_with_space (reverse cs))

-- `re.fullmatch('[a-f0-9]{n}', value)`.
unfoldable pub is_hex : ℕ → String → Bool
is_hex n s =
    nat_beq (length (codes s)) n && all (λ c. between b'0' b'9' c || between b'a' b'f' c) (codes s)

-- A text by its code points.
abbrev pub Text : Type 0
Text = List ℕ

abbrev digits : ℕ → ℕ → Text → Text
digits zero n out = out
digits (suc fuel) n out =
    if ltb n 10 then (b'0' + n) ∷ out else digits fuel (n / 10) ((b'0' + n % 10) ∷ out)

-- `str(n)`: a number has fewer digits than `n + 1`.
unfoldable pub decimal : ℕ → Text
decimal n = digits (suc n) n []

-- The text after a prefix.
abbrev pub after_prefix : Text → Text → Option Text
after_prefix [] t = some t
after_prefix (c ∷ p) [] = none
after_prefix (c ∷ p) (d ∷ t) = let rest = after_prefix p t in if nat_beq c d then rest else none

-- The first line and what follows its line feed.
abbrev pub first_line : Text → Option (Text × Text)
first_line [] = none
first_line (c ∷ t) = if nat_beq c 10 then some ([], t) else longer c (first_line t)
  where
    longer : ℕ → Option (Text × Text) → Option (Text × Text)
    longer c none = none
    longer c (some (line, rest)) = some (c ∷ line, rest)

abbrev pub last_is : ℕ → Text → Bool
last_is c [] = false
last_is c (d ∷ []) = nat_beq c d
last_is c (d ∷ e ∷ t) = last_is c (e ∷ t)

-- `len(text.encode('utf-8'))`.
abbrev utf8_width : ℕ → ℕ
utf8_width c = if ltb c 0x80 then 1 else if ltb c 0x800 then 2 else if ltb c 0x10000 then 3 else 4

unfoldable pub utf8_length : Text → ℕ
utf8_length [] = 0
utf8_length (c ∷ t) = utf8_width c + utf8_length t

-- A string value that Python takes for true: neither `None` nor empty.
unfoldable pub has_text : Option String → Bool
has_text none = false
has_text (some s) = not (str_eq s "")
