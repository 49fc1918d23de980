-- ===== src/Crypto/Hex.antt =====
-- modules/nexus/src/crypto.cpp: `from_hex` reads what `to_hex` writes.
use nazg.Base.{
  ℕ, ◌+◌, ◌*◌, ◌/◌, ◌%◌, ◌<◌, ◌≡◌, refl, ap, true, false, some, [], ◌∷◌, Bytes, ◌==◌, length, All,
  contains, arith,
}
use nazg.Crypto.{hex_digit, to_hex, hex_value, read_pair, read_pairs, from_hex}

-- Every element is a byte.
abbrev pub AreBytes : Bytes → Type 0
AreBytes = All (λ c. c < 256)

hex_value-hex_digit : (n : ℕ) → n < 16 → hex_value (hex_digit n) ≡ some n
hex_value-hex_digit n h = ground arith

read_pair-hex_digit :
    (m n : ℕ) → m < 16 → n < 16 → read_pair (hex_digit m) (hex_digit n) ≡ some (16 * m + n)
unfolding read_pair
read_pair-hex_digit m n h k = ground (arith, hex_value-hex_digit m h, hex_value-hex_digit n k)

read_pair-byte : (c : ℕ) → c < 256 → read_pair (hex_digit (c / 16)) (hex_digit (c % 16)) ≡ some c
read_pair-byte c h =
    rw (read_pair-hex_digit (c / 16) (c % 16) (omega arith) (omega arith)) (ap some halves)
  where
    halves : 16 * (c / 16) + c % 16 ≡ c
    halves = omega arith

read_pairs-to_hex : (s : Bytes) → AreBytes s → read_pairs (to_hex s) ≡ some s
unfolding to_hex read_pairs
read_pairs-to_hex [] h = refl
read_pairs-to_hex (c ∷ s) h = rw (read_pair-byte c h.0, read_pairs-to_hex s h.1, read_pairs) refl

length-to_hex : (s : Bytes) → length (to_hex s) ≡ 2 * length s
unfolding to_hex
length-to_hex [] = refl
length-to_hex (c ∷ s) = omega (arith, length-to_hex s)

even_length : (s : Bytes) → (length (to_hex s) % 2 == 0) ≡ true
even_length s = ground (arith, length-to_hex s)

-- Of a text that `to_hex` writes for bytes, `from_hex` reads these bytes.
pub from_hex-to_hex : (s : Bytes) → AreBytes s → from_hex (to_hex s) ≡ s
unfolding from_hex
from_hex-to_hex s h = rw (even_length s, read_pairs-to_hex s h, from_hex) refl

-- It writes no `:`.
pub to_hex-contains : (s : Bytes) → AreBytes s → contains b':' (to_hex s) ≡ false
unfolding to_hex
to_hex-contains [] h = refl
to_hex-contains (c ∷ s) h = ground (arith, to_hex-contains s h.1)
