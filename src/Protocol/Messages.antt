-- ===== src/Protocol/Messages.antt =====
-- modules/agent/src/protocol.cpp: `decode` reads what `encode` writes, and refuses a part of it.
use nazg.Base.{
  ℕ, zero, suc, ◌+◌, ◌*◌, ◌/◌, ◌%◌, ◌^◌, ◌<◌, ◌≤◌, ◌≡◌, refl, ap, ◌∙◌, Bool-cases, inl, inr, ltb→lt,
  ◌-◌, true, false, [], ◌∷◌, ◌++◌, Bytes, ltb, length, length-append, take, if◌then◌else◌, arith,
}
use nazg.Protocol.{Header, Padding, header_bytes, encode, decode}

four_bytes :
    (n : ℕ)
    → n < 4294967296
    → n % 256 + 256 * (n / 256 % 256) + 65536 * (n / 65536 % 256) + 16777216 * (n / 16777216 % 256)
      ≡ n
four_bytes n h = omega arith

length-take : (n : ℕ) (s : Bytes) → length (take n s) ≤ n
length-take zero s = omega arith
length-take (suc n) [] = omega arith
length-take (suc n) (c ∷ s) = omega (arith, length-take n s)

take-append : (s t : Bytes) → take (length s) (s ++ t) ≡ s
take-append [] t = refl
take-append (c ∷ s) t = ap (λ r. c ∷ r) (take-append s t)

-- What is read behind a whole header.
decode-header_bytes :
    (padding : Padding) (header out : Header) (s old : Bytes)
    → header.payload_size < 4294967296
    → decode (header_bytes padding header ++ s) out old ≡ (
        if ltb (length s) header.payload_size
        then (false, header, old)
        else (true, header, take header.payload_size s))
unfolding decode
decode-header_bytes padding header out s old h = ground (arith, four_bytes header.payload_size h)

decode-short :
    (s : Bytes) (out : Header) (old : Bytes) → length s < 8 → (decode s out old).0 ≡ false
unfolding decode
decode-short s out old h = ground arith

encode-header_bytes :
    (padding : Padding) (header : Header) (payload : Bytes)
    → length payload < 4294967296
    → encode padding header payload
      ≡ header_bytes padding (record header { payload_size = length payload }) ++ payload
unfolding encode
encode-header_bytes padding header payload h =
    ap (λ n. header_bytes padding (record header { payload_size = n }) ++ payload) small
  where
    small : length payload % 2 ^ 32 ≡ length payload
    small = omega (arith, h)

-- Of what is encoded from a header and a payload of less than 2^32 bytes, whatever stands behind it
-- in the buffer, `decode` reads the type and the payload, and the payload's size.
pub decode-encode :
    (padding : Padding) (header out : Header) (payload rest old : Bytes)
    → length payload < 4294967296
    → decode (encode padding header payload ++ rest) out old
      ≡ (true, record header { payload_size = length payload }, payload)
decode-encode padding header out payload rest old h =
    let sized = record header { payload_size = length payload } in
    ap (λ s. decode (s ++ rest) out old) (encode-header_bytes padding header payload h)
    ∙ decode-header_bytes padding sized out (payload ++ rest) old h
    ∙ ground (arith, length-append payload rest, take-append payload rest)

-- A buffer that ends before the end of what is encoded, of a payload of less than 2^32 bytes, is
-- refused.
pub decode-take :
    (padding : Padding) (header out : Header) (payload old : Bytes) (n : ℕ)
    → length payload < 4294967296
    → n < length payload + 8
    → (decode (take n (encode padding header payload)) out old).0 ≡ false
decode-take padding header out payload old n h short = elim (Bool-cases (ltb n 8)) [
  | inl few ↦
      decode-short (take n whole) out old (omega (arith, length-take n whole, ltb→lt n 8 few))
  | inr many ↦ behind (n - 8) (ground (arith, many))
]
  where
    whole : Bytes
    whole = encode padding header payload

    sized : Header
    sized = record header { payload_size = length payload }

    behind :
        (m : ℕ)
        → n ≡ suc (suc (suc (suc (suc (suc (suc (suc m)))))))
        → (decode (take n whole) out old).0 ≡ false
    behind m e =
        ap (λ k. (decode (take k whole) out old).0) e
        ∙ ap (λ s. (decode (take (suc (suc (suc (suc (suc (suc (suc (suc m)))))))) s) out old).0)
            (encode-header_bytes padding header payload h)
        ∙ ap (λ r. r.0) (decode-header_bytes padding sized out (take m payload) old h)
        ∙ ground (arith, length-take m payload, e)
