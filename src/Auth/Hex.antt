-- ===== src/Auth/Hex.antt =====
-- encoding/hex: the digits of a text stand for it.
use gonic.Base.{
  ℕ, hex_char, hex_value, hex_value-hex_char, ◌+◌, ◌*◌, ◌/◌, ◌%◌, ◌<◌, ◌≡◌, refl, ◌∙◌, [], ◌∷◌,
  some, All, arith, Str,
}
use mathlib.Core.Path.{ap₂}
use gonic.Auth.{encode_hex, decode_hex}

decode_hex-pair :
    (a b x y : ℕ) (s : Str)
    → hex_value a ≡ some x
    → hex_value b ≡ some y
    → decode_hex (a ∷ b ∷ s) ≡ (16 * x + y) ∷ decode_hex s
unfolding decode_hex
decode_hex-pair a b x y s h k = rw (decode_hex, h, k) refl

pub decode_hex-encode_hex : (s : Str) → All (λ c. c < 256) s → decode_hex (encode_hex s) ≡ s
unfolding encode_hex decode_hex
decode_hex-encode_hex [] h = refl
decode_hex-encode_hex (c ∷ s) (l, h) =
    let high : c / 16 < 16 = omega arith in
    let low : c % 16 < 16 = omega arith in
    let whole : 16 * (c / 16) + c % 16 ≡ c = omega arith in
    decode_hex-pair (hex_char (c / 16)) (hex_char (c % 16)) (c / 16) (c % 16) (encode_hex s)
      (hex_value-hex_char (c / 16) high) (hex_value-hex_char (c % 16) low)
    ∙ ap₂ (λ d t. d ∷ t) whole (decode_hex-encode_hex s h)
