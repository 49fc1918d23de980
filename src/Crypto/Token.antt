-- ===== src/Crypto/Token.antt =====
-- modules/nexus/src/crypto.cpp: `decrypt_token` undoes `encrypt_token`.
use nazg.Base.{
  ◌≡◌, refl, sym, ap, ◌∙◌, inl, inr, Bool, true, false, Bool-cases, Option-cases, Option, none,
  some, [], ◌∷◌, ◌++◌, ◌&&◌, not, Bytes, length, is_empty, cut_at-append, if◌then◌else◌, arith,
}
use nazg.Base.Members.{is_there}
use nazg.Crypto.{
  Host, to_hex, from_hex, derive_key, prefix, token_text, encrypt_token, decrypt_with,
  decrypt_payload, decrypt_token,
}
use nazg.Crypto.Hex.{AreBytes, from_hex-to_hex, to_hex-contains}

-- What AES-256-GCM and the random bytes are relied on for: what is encrypted with a key and a vector
-- is decrypted with them, a ciphertext is as long as its text, a tag has 16 bytes, a vector 12.
pub record IsGcm (host : Host) : Type 0 where
  pub unseal-seal :
      (key iv text ct tag : Bytes)
      → AreBytes text
      → host.seal key iv text ≡ some (ct, tag)
      → host.unseal key iv ct tag ≡ some text
  pub seal_bytes :
      (key iv text ct tag : Bytes)
      → AreBytes text
      → host.seal key iv text ≡ some (ct, tag)
      → AreBytes ct × AreBytes tag × (length ct ≡ length text) × (length tag ≡ 16)
  pub iv_bytes : (iv : Bytes) → host.random_iv ≡ some iv → AreBytes iv × (length iv ≡ 12)

-- Whether every call that an encryption makes succeeds.
abbrev seals : Host → Bytes → Option Bytes → Option Bytes → Bool
seals host text none iv = false
seals host text (some key) none = false
seals host text (some key) (some iv) = is_there (host.seal key iv text)

abbrev pub encrypts : Host → Bytes → Bytes → Bool
encrypts host text salt_hex =
    not (is_empty text)
    && not (is_empty (from_hex salt_hex))
    && host.has_context
    && seals host text (derive_key host (from_hex salt_hex)) host.random_iv

decrypt_token-prefix :
    (host : Host) (payload salt_hex : Bytes)
    → decrypt_token host (prefix ++ payload) salt_hex ≡ decrypt_payload host salt_hex payload
unfolding decrypt_token
decrypt_token-prefix host payload salt_hex = ground arith

decrypt_payload-token :
    (host : Host) (salt_hex iv ct tag : Bytes)
    → AreBytes iv
    → AreBytes ct
    → AreBytes tag
    → decrypt_payload host salt_hex (to_hex iv ++ b':' ∷ (to_hex ct ++ b':' ∷ to_hex tag))
      ≡ decrypt_with host (from_hex salt_hex) iv ct tag
decrypt_payload-token host salt_hex iv ct tag hi hc ht =
    rw
      (
        cut_at-append b':' (to_hex iv) (to_hex ct ++ b':' ∷ to_hex tag) (to_hex-contains iv hi),
        cut_at-append b':' (to_hex ct) (to_hex tag) (to_hex-contains ct hc),
        decrypt_payload,
      )
      (ap (λ x. decrypt_with host salt x (from_hex (to_hex ct)) (from_hex (to_hex tag)))
          (from_hex-to_hex iv hi)
        ∙ ap (λ x. decrypt_with host salt iv x (from_hex (to_hex tag))) (from_hex-to_hex ct hc)
        ∙ ap (decrypt_with host salt iv ct) (from_hex-to_hex tag ht))
  where
    salt : Bytes
    salt = from_hex salt_hex

same_emptiness : (s t : Bytes) → length s ≡ length t → is_empty s ≡ is_empty t
same_emptiness [] [] h = refl
same_emptiness [] (d ∷ t) h = absurd (omega arith)
same_emptiness (c ∷ s) [] h = absurd (omega arith)
same_emptiness (c ∷ s) (d ∷ t) h = refl

decrypt_empty : (host : Host) (salt_hex : Bytes) → decrypt_token host [] salt_hex ≡ some []
unfolding decrypt_token
decrypt_empty host salt_hex = refl

module _ (host : Host) (gcm : IsGcm host) (text salt_hex : Bytes) (bytes : AreBytes text) where
  decrypt_with-seal :
      (key iv ct tag : Bytes)
      → is_empty text ≡ false
      → is_empty (from_hex salt_hex) ≡ false
      → derive_key host (from_hex salt_hex) ≡ some key
      → host.random_iv ≡ some iv
      → host.has_context ≡ true
      → host.seal key iv text ≡ some (ct, tag)
      → decrypt_token host (token_text iv ct tag) salt_hex ≡ some text
  decrypt_with-seal key iv ct tag t s d i c e =
      let (hct, htag, ct_length, tag_length) = gcm.seal_bytes key iv text ct tag bytes e in
      let (hiv, iv_length) = gcm.iv_bytes iv i in
      decrypt_token-prefix host (to_hex iv ++ b':' ∷ (to_hex ct ++ b':' ∷ to_hex tag)) salt_hex
      ∙ decrypt_payload-token host salt_hex iv ct tag hiv hct htag
      ∙ ground (
        arith,
        same_emptiness ct text ct_length,
        iv_length,
        tag_length,
        gcm.unseal-seal key iv text ct tag bytes e,
      )

  encrypt_token-fails : encrypts host text salt_hex ≡ false → encrypt_token host text salt_hex ≡ []
  unfolding encrypt_token
  encrypt_token-fails h = ground arith

  encrypt_token-succeeds :
      (key iv ct tag : Bytes)
      → is_empty text ≡ false
      → is_empty (from_hex salt_hex) ≡ false
      → derive_key host (from_hex salt_hex) ≡ some key
      → host.random_iv ≡ some iv
      → host.has_context ≡ true
      → host.seal key iv text ≡ some (ct, tag)
      → encrypt_token host text salt_hex ≡ token_text iv ct tag
  unfolding encrypt_token
  encrypt_token-succeeds key iv ct tag t s k i c e = ground (arith, t, s, k, i, c, e)

  seals-calls :
      (k i : Option Bytes)
      → seals host text k i ≡ true
      → (key : Bytes) × (iv : Bytes) × (parts : Bytes × Bytes) × (k ≡ some key)
        × (i ≡ some iv)
        × (host.seal key iv text ≡ some parts)
  seals-calls none i h = absurd (cc h)
  seals-calls (some key) none h = absurd (cc h)
  seals-calls (some key) (some iv) h = elim (Option-cases (host.seal key iv text)) [
    | inl e ↦ absurd (ground (arith, e, h))
    | inr (parts, e) ↦ (key, iv, parts, refl, refl, e)
  ]

  encrypts-calls :
      encrypts host text salt_hex ≡ true
      → (is_empty text ≡ false)
        × (is_empty (from_hex salt_hex) ≡ false)
        × (host.has_context ≡ true)
        × (key : Bytes) × (iv : Bytes) × (parts : Bytes × Bytes) × (derive_key host
              (from_hex salt_hex)
            ≡ some key)
        × (host.random_iv ≡ some iv)
        × (host.seal key iv text ≡ some parts)
  encrypts-calls h =
      let (t, s, c, calls) = four _ _ _ _ h in
      let (key, iv, parts, k, i, e) =
        seals-calls (derive_key host (from_hex salt_hex)) host.random_iv calls in
      (t, s, c, key, iv, parts, k, i, e)
    where
      four :
          (a b c d : Bool)
          → (not a && not b && c && d) ≡ true
          → (a ≡ false) × (b ≡ false) × (c ≡ true) × (d ≡ true)
      four a b c d h = ground arith

-- Under the laws of AES-256-GCM, what is decrypted of the token of a text of bytes, with the same
-- secret and salt, is the text if every call of the encryption succeeded, and else the empty text.
pub decrypt_token-encrypt_token :
    (host : Host) (text salt_hex : Bytes)
    → IsGcm host
    → AreBytes text
    → decrypt_token host (encrypt_token host text salt_hex) salt_hex
      ≡ some (if encrypts host text salt_hex then text else [])
decrypt_token-encrypt_token host text salt_hex gcm bytes =
    elim (Bool-cases (encrypts host text salt_hex)) [
      | inl works ↦
          let (t, s, c, key, iv, (ct, tag), k, i, e) =
            encrypts-calls host gcm text salt_hex bytes works in
          ap (λ token. decrypt_token host token salt_hex)
            (encrypt_token-succeeds host gcm text salt_hex bytes key iv ct tag t s k i c e)
          ∙ decrypt_with-seal host gcm text salt_hex bytes key iv ct tag t s k i c e
          ∙ ap (λ b. some (if b then text else [])) (sym works)
      | inr fails ↦
          ap (λ token. decrypt_token host token salt_hex)
            (encrypt_token-fails host gcm text salt_hex bytes fails)
          ∙ decrypt_empty host salt_hex
          ∙ ap (λ b. some (if b then text else [])) (sym fails)
    ]
