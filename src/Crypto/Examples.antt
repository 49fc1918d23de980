-- ===== src/Crypto/Examples.antt =====
-- modules/nexus/src/crypto.cpp: runs, and the theorems at concrete inputs.
use nazg.Base.{
  ◌≡◌, refl, subst, true, arith, length, Bool, true, ltb, ◌&&◌, Option, none, some, [], ◌∷◌, Bytes,
  codes, if◌then◌else◌,
}
use nazg.Crypto.{Host, to_hex, from_hex, read_pair, read_pairs, encrypt_token, decrypt_token}
use nazg.Crypto.Hex.{AreBytes}
use nazg.Crypto.Token.{IsGcm, encrypts, decrypt_token-encrypt_token}

abbrev sixteen : Bytes
sixteen = codes "0123456789abcdef"

-- A cipher that leaves the text as it is.
abbrev host : Host
host = record {
  env_key = none;
  machine_id = some (codes "ab12 ");
  pbkdf2 = λ secret salt. some secret;
  random_iv = some (codes "abcdefghijkl");
  has_context = true;
  seal = λ key iv text. some (text, sixteen);
  unseal = λ key iv ct tag. some ct;
}

to_hex-text : to_hex (codes "\n:z") ≡ codes "0a3a7a"
unfolding to_hex
to_hex-text = refl

from_hex-text :
    (from_hex (codes "0A3a7a") ≡ codes "\n:z")
    × (from_hex (codes " 1-1+2") ≡ 1 ∷ 255 ∷ 2 ∷ [])
    × (from_hex (codes "0x") ≡ [])
    × (from_hex (codes "abc") ≡ [])
    × (from_hex (codes "1gff") ≡ 1 ∷ 255 ∷ [])
unfolding from_hex read_pairs read_pair
from_hex-text = (refl, refl, refl, refl, refl)

decrypt_token-text : decrypt_token host (codes "token") (codes "00") ≡ some (codes "token")
unfolding decrypt_token
decrypt_token-text = refl

abbrev all_bytes : Bytes → Bool
all_bytes [] = true
all_bytes (c ∷ s) = ltb c 256 && all_bytes s

all_bytes-AreBytes : (s : Bytes) → all_bytes s ≡ true → AreBytes s
all_bytes-AreBytes [] h = tt
all_bytes-AreBytes (c ∷ s) h = (ground (arith, h), all_bytes-AreBytes s (ground (arith, h)))

abbrev IsSealed : Bytes → Option (Bytes × Bytes) → Type 0
IsSealed text none = Unit
IsSealed text (some (ct, tag)) =
    AreBytes ct × AreBytes tag × (length ct ≡ length text) × (length tag ≡ 16)

abbrev IsVector : Option Bytes → Type 0
IsVector none = Unit
IsVector (some iv) = AreBytes iv × (length iv ≡ 12)

host-IsGcm : IsGcm host
host-IsGcm = record {
  unseal-seal = λ key iv text ct tag bytes e. ground (arith, e);
  seal_bytes = λ key iv text ct tag bytes e.
      subst (IsSealed text) e (bytes, all_bytes-AreBytes sixteen refl, refl, refl);
  iv_bytes = λ iv e. subst IsVector e (all_bytes-AreBytes (codes "abcdefghijkl") refl, refl);
}

decrypt_token-encrypt_token_example :
    decrypt_token host (encrypt_token host (codes "ghp") (codes "00ff")) (codes "00ff")
    ≡ some (if encrypts host (codes "ghp") (codes "00ff") then codes "ghp" else [])
decrypt_token-encrypt_token_example =
    decrypt_token-encrypt_token host (codes "ghp") (codes "00ff") host-IsGcm
      (all_bytes-AreBytes (codes "ghp") refl)

encrypts-text : encrypts host (codes "ghp") (codes "00ff") ≡ true
unfolding from_hex read_pairs read_pair
encrypts-text = refl
