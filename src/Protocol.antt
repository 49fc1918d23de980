-- ===== src/Protocol.antt =====
-- modules/agent/src/protocol.cpp and its header: the messages between an agent and the control center.
-- A header is eight bytes, as on x86-64: the type, three bytes of padding and the size of the payload,
-- the low byte first. What the padding holds is a parameter.
pub mod Messages
mod Examples
use nazg.Base.{
  ℕ, ◌+◌, ◌*◌, ◌/◌, ◌%◌, ◌^◌, Bool, true, false, List, [], ◌∷◌, ◌++◌, Bytes, ltb, length, take,
  drop, if◌then◌else◌,
}

pub data MessageType : Type 0 where
  hello hello_ack run_command command_ack heartbeat log result : MessageType
  register register_ack docker_full_scan docker_event docker_incremental_update : MessageType
  docker_command docker_command_result error : MessageType

abbrev pub type_code : MessageType → ℕ
type_code hello = 1
type_code hello_ack = 2
type_code run_command = 3
type_code command_ack = 4
type_code heartbeat = 5
type_code log = 6
type_code result = 7
type_code register = 10
type_code register_ack = 11
type_code docker_full_scan = 20
type_code docker_event = 21
type_code docker_incremental_update = 22
type_code docker_command = 30
type_code docker_command_result = 31
type_code error = 255

-- The type is a byte: a header that is read may hold one that no message has.
pub record Header : Type 0 where
  pub type : ℕ
  pub payload_size : ℕ

abbrev pub Padding : Type 0
Padding = ℕ × ℕ × ℕ

abbrev pub header_bytes : Padding → Header → Bytes
header_bytes (a, b, c) header =
    let n = header.payload_size in
    header.type ∷ a ∷ b ∷ c ∷ n % 256 ∷ n / 256 % 256 ∷ n / 65536 % 256 ∷ n / 16777216 % 256 ∷ []

unfoldable pub encode : Padding → Header → Bytes → Bytes
encode padding header payload =
    header_bytes padding (record header { payload_size = length payload % 2 ^ 32 }) ++ payload

abbrev read_header : Bytes → Header → Header
read_header (type ∷ a ∷ b ∷ c ∷ n0 ∷ n1 ∷ n2 ∷ n3 ∷ rest) header = record {
  type = type;
  payload_size = n0 + 256 * n1 + 65536 * n2 + 16777216 * n3;
}
read_header _ header = header

-- With what the header and the payload are afterwards.
unfoldable pub decode : Bytes → Header → Bytes → Bool × Header × Bytes
decode buffer header payload =
    if ltb (length buffer) 8
    then (false, header, payload)
    else let read = read_header buffer header in
      if ltb (length buffer) (8 + read.payload_size)
      then (false, read, payload)
      else (true, read, take read.payload_size (drop 8 buffer))
