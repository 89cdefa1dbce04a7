-- ===== src/Text/Utf8.antt =====
-- `std::str::from_utf8` of the standard library: the well-formed byte sequences of Unicode's
-- table 3-7, one byte at a time.
use erabi.Base.{
  ◌≡◌, refl, true, false, ℕ, zero, suc, ◌+◌, ◌-◌, ◌*◌, ◌&&◌, List, [], ◌∷◌, Option, none, some, ltb,
  leb, ◌==◌, if◌then◌else◌,
}
use erabi.Text.{Text}

-- What a first byte announces: itself, or how many bytes follow, the bits that it brings, and the
-- range of the next byte.
pub data Lead : Type 0 where
  ill_formed : Lead
  ascii : Lead
  multi : ℕ → ℕ → ℕ → ℕ → Lead

lead : ℕ → Lead
lead b =
    if ltb b 128
    then ascii
    else if ltb b 194
    then ill_formed
    else if ltb b 224
    then multi 0 (b - 192) 128 191
    else if b == 224
    then multi 1 0 160 191
    else if b == 237
    then multi 1 13 128 159
    else if ltb b 240
    then multi 1 (b - 224) 128 191
    else if b == 240
    then multi 2 0 144 191
    else if ltb b 244
    then multi 2 (b - 240) 128 191
    else if b == 244
    then multi 2 4 128 143
    else ill_formed

-- Within a sequence: how many bytes follow the next one, the bits so far, and the next one's range.
pub record Pending : Type 0 where
  pub more : ℕ
  pub bits : ℕ
  pub low : ℕ
  pub high : ℕ

push : ℕ → Option Text → Option Text
push c none = none
push c (some t) = some (c ∷ t)

decode : Option Pending → List ℕ → Option Text
unfolding lead push
decode none [] = some []
decode (some _) [] = none
decode none (b ∷ bs) = elim (lead b) [
  | ill_formed ↦ none
  | ascii ↦ push b (decode none bs)
  | multi n bits low high ↦
      decode (some (record { more = n; bits = bits; low = low; high = high })) bs
]
decode (some p) (b ∷ bs) = elim (leb p.low b && leb b p.high) [
  | false ↦ none
  | true ↦
      let bits = p.bits * 64 + (b - 128) in
      elim p.more [
        | zero ↦ push bits (decode none bs)
        | suc n ↦ decode (some (record { more = n; bits = bits; low = 128; high = 191 })) bs
      ]
]

unfoldable pub from_utf8 : List ℕ → Option Text
unfolding decode
from_utf8 bytes = decode none bytes

ascii_and_euro : from_utf8 (65 ∷ 226 ∷ 130 ∷ 172 ∷ []) ≡ some (65 ∷ 8364 ∷ [])
unfolding from_utf8
ascii_and_euro = refl

surrogate : from_utf8 (237 ∷ 160 ∷ 128 ∷ []) ≡ none
unfolding from_utf8
surrogate = refl

truncated : from_utf8 (240 ∷ 159 ∷ 146 ∷ []) ≡ none
unfolding from_utf8
truncated = refl

four_bytes : from_utf8 (240 ∷ 159 ∷ 146 ∷ 150 ∷ []) ≡ some (128150 ∷ [])
unfolding from_utf8
four_bytes = refl
