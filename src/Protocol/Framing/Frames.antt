-- ===== src/Protocol/Framing/Frames.antt =====
-- The byte framing and the hexadecimal texts, with their inverses.
use weavegate.Prelude.{
  ℕ, ◌+◌, ◌*◌, ◌-◌, ◌/◌, ◌%◌, ◌<◌, ◌≡◌, ◌↔◌, refl, ap, ◌∙◌, arith, true, ◌&&◌, [], ◌∷◌, ◌++◌, All,
  all, length, ltb, if◌then◌else◌, and-true,
}
use weavegate.Prelude.Result.{ok}
use weavegate.Prelude.Text.{Text}
use weavegate.Protocol.Framing.{
  Bytes, header, payload, framed, from_hex, hex_value, is_even, is_hex_digit,
}

-- A number below 2 ^ 32 as four bytes, the highest first.
abbrev pub big_endian : ℕ → Bytes
big_endian n = (n / 16777216) ∷ (n / 65536 % 256) ∷ (n / 256 % 256) ∷ (n % 256) ∷ []

abbrev pub encode : Bytes → Bytes
encode p = big_endian (length p) ++ p

abbrev pub IsByte : ℕ → Type 0
IsByte b = b < 256

framed-encode : (p : Bytes) → length p < 4294967296 → framed (encode p) ≡ ok p
unfolding framed header payload
framed-encode p h = ground arith

encode-framed :
    (raw p : Bytes)
    → All IsByte raw
    → framed raw ≡ ok p
    → (raw ≡ encode p) × (length p < 4294967296)
unfolding framed header payload
encode-framed [] p b h = ground arith
encode-framed (x ∷ []) p b h = ground arith
encode-framed (x ∷ y ∷ []) p b h = ground arith
encode-framed (x ∷ y ∷ z ∷ []) p b h = ground arith
encode-framed (x ∷ y ∷ z ∷ w ∷ rest) p b h = ground arith

-- Bytes are a frame of a payload exactly when they are the payload's length, in four bytes with
-- the highest first, and the payload, whose length is below 2 ^ 32.
pub framed-exact :
    (raw p : Bytes)
    → All IsByte raw
    → (framed raw ≡ ok p) ↔ ((raw ≡ encode p) × (length p < 4294967296))
framed-exact raw p b = (encode-framed raw p b, λ (e, h). ap framed e ∙ framed-encode p h)

abbrev pub hex_digit : ℕ → ℕ
hex_digit n = if ltb n 10 then b'0' + n else b'a' + n - 10

abbrev pub to_hex : Bytes → Text
to_hex [] = []
to_hex (b ∷ bs) = hex_digit (b / 16) ∷ hex_digit (b % 16) ∷ to_hex bs

hex_value-hex_digit : (n : ℕ) → n < 16 → hex_value (hex_digit n) ≡ n
unfolding hex_value
hex_value-hex_digit n h = ground arith

hex_digit-hex_value :
    (c : ℕ) → is_hex_digit c ≡ true → (hex_digit (hex_value c) ≡ c) × (hex_value c < 16)
unfolding hex_value
hex_digit-hex_value c h = ground arith

from_hex-to_hex : (bs : Bytes) → All IsByte bs → from_hex (to_hex bs) ≡ bs
unfolding from_hex
from_hex-to_hex [] h = refl
from_hex-to_hex (b ∷ bs) (small, h) =
    ground (arith, hex_value-hex_digit (b / 16), hex_value-hex_digit (b % 16), from_hex-to_hex bs h)

to_hex-from_hex :
    (t : Text)
    → is_even t ≡ true
    → all is_hex_digit t ≡ true
    → (to_hex (from_hex t) ≡ t) × All IsByte (from_hex t)
unfolding is_even from_hex
to_hex-from_hex [] even digits = (refl, tt)
to_hex-from_hex (a ∷ []) even digits = cc
to_hex-from_hex (a ∷ b ∷ t) even digits =
    let (first, more) = and-true (is_hex_digit a) (is_hex_digit b && all is_hex_digit t) digits in
    let (second, rest) = and-true (is_hex_digit b) (all is_hex_digit t) more in
    let (high, small) = hex_digit-hex_value a first in
    let (low, tiny) = hex_digit-hex_value b second in
    let (same, bytes) = to_hex-from_hex t even rest in
    let quotient : (hex_value a * 16 + hex_value b) / 16 ≡ hex_value a = omega (arith, tiny) in
    let remainder : (hex_value a * 16 + hex_value b) % 16 ≡ hex_value b = omega (arith, tiny) in
    (rw (quotient, remainder, high, low, same) refl, (omega (arith, small, tiny), bytes))

pub from_hex-inverse :
    (bs : Bytes) (t : Text)
    → All IsByte bs
    → is_even t ≡ true
    → all is_hex_digit t ≡ true
    → (from_hex (to_hex bs) ≡ bs) × (to_hex (from_hex t) ≡ t) × All IsByte (from_hex t)
from_hex-inverse bs t b even digits =
    let (same, bytes) = to_hex-from_hex t even digits in (from_hex-to_hex bs b, same, bytes)
