-- ===== src/Crypto.antt =====
-- modules/nexus/src/crypto.cpp: the tokens that the store encrypts. OpenSSL, its random bytes and
-- what the machine's secret is read from are parameters. The calls that encrypt, from
-- `EVP_EncryptInit_ex` to the one that takes the tag, are one parameter, and so are those that
-- decrypt. Clearing the key is left out.
pub mod Hex
pub mod Token
mod Examples
use nazg.Base.{
  ℕ, ◌+◌, ◌-◌, ◌*◌, ◌/◌, ◌%◌, Bool, true, false, Option, none, some, List, [], ◌∷◌, ◌++◌, ◌&&◌,
  ◌||◌, Bytes, codes, ◌=ᵇ◌, ◌==◌, leb, ltb, length, is_empty, take, drop, cut_at, drop_end, not,
  if◌then◌else◌,
}
use nazg.Base.Members.{is_there}

abbrev pub hex_digit : ℕ → ℕ
hex_digit n = if ltb n 10 then n + b'0' else n + 87

unfoldable pub to_hex : Bytes → Bytes
to_hex [] = []
to_hex (c ∷ s) = hex_digit (c / 16) ∷ hex_digit (c % 16) ∷ to_hex s

abbrev pub hex_value : ℕ → Option ℕ
hex_value c =
    if leb b'0' c && leb c b'9'
    then some (c - b'0')
    else if leb b'a' c && leb c b'f'
    then some (c - 87)
    else if leb b'A' c && leb c b'F'
    then some (c - 55)
    else none

abbrev pub is_space : ℕ → Bool
is_space c = c == b' ' || (leb 9 c && leb c 13)

-- The byte that `iss >> std::hex >> byte` reads from two characters: blanks before the number are
-- passed over, a sign is taken, reading stops at the first character that is no digit, and `0x` is a
-- prefix without a number. A negative number is taken modulo 2^32, then cast to a byte.
unfoldable pub read_pair : ℕ → ℕ → Option ℕ
read_pair c d =
    if is_space c
    then hex_value d
    else if c == b'+'
    then hex_value d
    else if c == b'-'
    then elim (hex_value d) [ none ↦ none | some n ↦ some ((256 - n) % 256) ]
    else if c == b'0' && (d == b'x' || d == b'X')
    then none
    else elim (hex_value c) [
      | none ↦ none
      | some m ↦ elim (hex_value d) [ none ↦ some m | some n ↦ some (16 * m + n) ]
    ]

-- The loop; `none` stands for the failure that clears the bytes.
unfoldable pub read_pairs : Bytes → Option Bytes
read_pairs [] = some []
read_pairs (c ∷ []) = none
read_pairs (c ∷ d ∷ s) = elim (read_pair c d) [
  | none ↦ none
  | some b ↦ elim (read_pairs s) [ none ↦ none | some bytes ↦ some (b ∷ bytes) ]
]

unfoldable pub from_hex : Bytes → Bytes
from_hex s =
    if not (length s % 2 == 0) then [] else elim (read_pairs s) [ none ↦ [] | some bytes ↦ bytes ]

-- The environment variable and the first line of `/etc/machine-id`, if they are there, and OpenSSL.
pub record Host : Type 0 where
  pub env_key : Option Bytes
  pub machine_id : Option Bytes
  pub pbkdf2 : Bytes → Bytes → Option Bytes
  pub random_iv : Option Bytes
  pub has_context : Bool
  pub seal : Bytes → Bytes → Bytes → Option (Bytes × Bytes)
  pub unseal : Bytes → Bytes → Bytes → Bytes → Option Bytes

abbrev is_trailing : ℕ → Bool
is_trailing c = c == b'\n' || c == b'\r' || c == b' '

abbrev fallback_secret : Bytes
fallback_secret = codes "nazg-default-key-fallback"

abbrev machine_id_secret : Option Bytes → Bytes
machine_id_secret none = fallback_secret
machine_id_secret (some line) =
    let id = drop_end is_trailing line in if is_empty id then fallback_secret else id

abbrev env_or_machine_id : Option Bytes → Option Bytes → Bytes
env_or_machine_id none machine_id = machine_id_secret machine_id
env_or_machine_id (some key) machine_id = if is_empty key then machine_id_secret machine_id else key

abbrev pub get_machine_secret : Host → Bytes
get_machine_secret host = env_or_machine_id host.env_key host.machine_id

abbrev pub derive_key : Host → Bytes → Option Bytes
derive_key host salt = host.pbkdf2 (get_machine_secret host) salt

abbrev pub prefix : Bytes
prefix = codes "enc:v1:"

abbrev pub token_text : Bytes → Bytes → Bytes → Bytes
token_text iv ciphertext tag =
    prefix ++ (to_hex iv ++ b':' ∷ (to_hex ciphertext ++ b':' ∷ to_hex tag))

-- From the key on.
abbrev pub encrypt_with : Host → Bytes → Bytes → Bytes
encrypt_with host plaintext key = elim host.random_iv [
  | none ↦ []
  | some iv ↦ if not host.has_context then [] else elim (host.seal key iv plaintext) [
    | none ↦ []
    | some (ciphertext, tag) ↦ token_text iv ciphertext tag
  ]
]

unfoldable pub encrypt_token : Host → Bytes → Bytes → Bytes
encrypt_token host plaintext salt_hex =
    if is_empty plaintext
    then []
    else if is_empty (from_hex salt_hex)
    then []
    else elim (derive_key host (from_hex salt_hex)) [
      | none ↦ []
      | some key ↦ encrypt_with host plaintext key
    ]

abbrev pub decrypt_with : Host → Bytes → Bytes → Bytes → Bytes → Option Bytes
decrypt_with host salt iv ct tag =
    if not (length iv == 12) || not (length tag == 16) || is_empty ct
    then none
    else if is_empty salt
    then none
    else elim (derive_key host salt) [
      | none ↦ none
      | some key ↦ if not host.has_context then none else host.unseal key iv ct tag
    ]

-- `<iv>:<ct>:<tag>`; the tag is all that stands behind the second `:`.
abbrev pub decrypt_payload : Host → Bytes → Bytes → Option Bytes
decrypt_payload host salt_hex payload = elim (cut_at b':' payload) [
  | none ↦ none
  | some (iv, rest) ↦ elim (cut_at b':' rest) [
    | none ↦ none
    | some (ct, tag) ↦
        decrypt_with host (from_hex salt_hex) (from_hex iv) (from_hex ct) (from_hex tag)
  ]
]

unfoldable pub decrypt_token : Host → Bytes → Bytes → Option Bytes
decrypt_token host stored salt_hex =
    if is_empty stored
    then some []
    else if ltb (length stored) 7 || not (take 7 stored =ᵇ prefix)
    then some stored
    else decrypt_payload host salt_hex (drop 7 stored)
