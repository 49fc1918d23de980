-- ===== src/Protocol/Examples.antt =====
-- modules/agent/src/protocol.cpp: runs, and the theorems at concrete inputs.
use nazg.Base.{◌≡◌, refl, true, false, ◌∷◌, ◌++◌, codes, arith}
use nazg.Protocol.{Header, type_code, error, docker_event, encode, decode}
use nazg.Protocol.Messages.{decode-encode}

abbrev no_header : Header
no_header = record { type = type_code error; payload_size = 0 }

abbrev event : Header
event = record { type = type_code docker_event; payload_size = 0 }

encode-event : encode (0, 0, 0) event (codes "up") ≡ 21 ∷ 0 ∷ 0 ∷ 0 ∷ 2 ∷ 0 ∷ 0 ∷ 0 ∷ codes "up"
unfolding encode
encode-event = refl

decode-event :
    decode (21 ∷ 0 ∷ 0 ∷ 0 ∷ 3 ∷ 0 ∷ 0 ∷ 0 ∷ codes "up") no_header (codes "old")
    ≡ (false, record { type = 21; payload_size = 3 }, codes "old")
unfolding decode
decode-event = refl

decode-encode_example :
    decode (encode (7, 7, 7) event (codes "up") ++ codes "rest") no_header (codes "old")
    ≡ (true, record event { payload_size = 2 }, codes "up")
decode-encode_example =
    decode-encode (7, 7, 7) event no_header (codes "up") (codes "rest") (codes "old") (omega arith)
