-- ===== src/Protocol.antt =====
-- core/include/protocol.hpp and core/src/protocol.cpp: the messages of the file transfer and their
-- bytes. A `std::vector<uint8_t>` and a `std::string` are lists of numbers below 256, a `size_t`
-- has 64 bits. `PutU32` and its like append to the buffer that they are given.
pub mod Words
pub mod Format
pub mod Fields
pub mod Codec
pub mod Payloads
pub mod Frame
use off_drop.Base.{ℕ, zero, suc, ◌+◌, ◌-◌, ◌*◌, ◌/◌, ◌%◌, ◌^◌, ◌≤◌, ◌<◌, bit_and, bit_or, ◌≡◌}
use off_drop.Base.{List, [], ◌∷◌, ◌++◌, length, get_elem?, take, drop, All, Option, none, some}
use off_drop.Base.{Bool, true, false, ltb, ◌==◌, not, if◌then◌else◌}
use off_drop.Base.Result.{Error, Result, ok, err, fault, ◌>>=◌, ◌>>◌, throw_if}
use off_drop.Base.Result.{
  truncated_length_prefix, truncated_payload, truncated_file_size, truncated_total_chunks,
  truncated_chunk_index, header_too_short, version_mismatch,
}

abbrev pub IsByte : ℕ → Type 0
IsByte b = b < 256

abbrev pub IsU32 : ℕ → Type 0
IsU32 v = v < 2 ^ 32

abbrev pub IsU64 : ℕ → Type 0
IsU64 v = v < 2 ^ 64

abbrev pub Bytes : Type 0
Bytes = List ℕ

-- A `size_t` sum.
abbrev pub size_add : ℕ → ℕ → ℕ
size_add a b = (a + b) % 2 ^ 64

-- `static_cast<uint8_t>(v & 0xFF)`
abbrev pub low_byte : ℕ → ℕ
low_byte v = bit_and v 0xff % 256

abbrev pub protocol_version : ℕ
protocol_version = 1

-- 16 KB, the bytes of the file that one chunk carries.
abbrev pub chunk_size : ℕ
chunk_size = 16 * 1024

abbrev pub header_size : ℕ
header_size = 1 + 1 + 4

-- The enumerators, and every other value of the underlying `uint8_t`, which a cast can produce.
pub data MessageType : Type 0 where
  hello hello_ack file_offer file_accept file_reject chunk file_done error : MessageType
  unnamed : ℕ → MessageType

pub record MessageHeader : Type 0 where
  pub version : ℕ
  pub type : MessageType
  pub payload_len : ℕ

pub record HelloPayload : Type 0 where
  pub device_name : Bytes
  pub x25519_public_key : Bytes

pub record FileOfferPayload : Type 0 where
  pub file_name : Bytes
  pub file_size : ℕ
  pub sha256 : Bytes
  pub total_chunks : ℕ

pub record ChunkPayload : Type 0 where
  pub chunk_index : ℕ
  pub nonce : Bytes
  pub ciphertext : Bytes
  pub tag : Bytes

-- `static_cast<uint8_t>(type)`
unfoldable pub type_to_byte : MessageType → ℕ
type_to_byte hello = 0x01
type_to_byte hello_ack = 0x02
type_to_byte file_offer = 0x03
type_to_byte file_accept = 0x04
type_to_byte file_reject = 0x05
type_to_byte chunk = 0x06
type_to_byte file_done = 0x07
type_to_byte error = 0xff
type_to_byte (unnamed b) = b

-- `static_cast<MessageType>(raw[1])`
unfoldable pub type_of_byte : ℕ → MessageType
type_of_byte b =
    if b == 0x01
    then hello
    else if b == 0x02
    then hello_ack
    else if b == 0x03
    then file_offer
    else if b == 0x04
    then file_accept
    else if b == 0x05
    then file_reject
    else if b == 0x06
    then chunk
    else if b == 0x07
    then file_done
    else if b == 0xff
    then error
    else unnamed b

unfoldable pub put_u32 : Bytes → ℕ → Bytes
put_u32 buf v =
    (((buf ++ low_byte v ∷ []) ++ low_byte (v / 2 ^ 8) ∷ []) ++ low_byte (v / 2 ^ 16) ∷ [])
    ++ low_byte (v / 2 ^ 24) ∷ []

-- The loop of `PutU64`, with the rounds that are left.
unfoldable pub put_u64_loop : ℕ → ℕ → Bytes → ℕ → Bytes
put_u64_loop zero i buf v = buf
put_u64_loop (suc rounds) i buf v =
    put_u64_loop rounds (i + 1) (buf ++ low_byte (v / 2 ^ (8 * i)) ∷ []) v

unfoldable pub put_u64 : Bytes → ℕ → Bytes
unfolding put_u64_loop
put_u64 buf v = put_u64_loop 8 0 buf v

unfoldable pub put_bytes : Bytes → Bytes → Bytes
put_bytes buf bytes = put_u32 buf (length bytes % 2 ^ 32) ++ bytes

unfoldable pub put_string : Bytes → Bytes → Bytes
put_string buf s = put_u32 buf (length s % 2 ^ 32) ++ s

-- `p[i]` for a pointer `p` into the buffer: a read past its end is undefined.
pub read_at : Bytes → ℕ → Result ℕ
read_at buf i = elim (get_elem? buf i) [ none ↦ fault | some b ↦ ok b ]

-- The parts of a `uint32_t`, shifted at 32 bits.
abbrev pub join_u32 : ℕ → ℕ → ℕ → ℕ → ℕ
join_u32 a b c d =
    bit_or (bit_or (bit_or a (b * 2 ^ 8 % 2 ^ 32)) (c * 2 ^ 16 % 2 ^ 32)) (d * 2 ^ 24 % 2 ^ 32)

pub get_u32 : Bytes → ℕ → Result ℕ
unfolding read_at
get_u32 buf p = do
  a ← read_at buf p
  b ← read_at buf (p + 1)
  c ← read_at buf (p + 2)
  d ← read_at buf (p + 3)
  ok (join_u32 a b c d)

-- The loop of `GetU64`: `v |= static_cast<uint64_t>(p[i]) << (8 * i)`.
get_u64_loop : ℕ → ℕ → Bytes → ℕ → ℕ → Result ℕ
get_u64_loop zero i buf p v = ok v
get_u64_loop (suc rounds) i buf p v = read_at buf (p + i) >>= λ b.
    get_u64_loop rounds (i + 1) buf p (bit_or v (b * 2 ^ (8 * i) % 2 ^ 64))

pub get_u64 : Bytes → ℕ → Result ℕ
unfolding get_u64_loop read_at
get_u64 buf p = get_u64_loop 8 0 buf p 0

-- `std::vector(buf.begin() + from, buf.begin() + from + len)`
pub slice : Bytes → ℕ → ℕ → Result Bytes
slice buf from len = if ltb (length buf) (from + len) then fault else ok (take len (drop from buf))

-- The block and the offset behind it, which the code passes by reference.
pub read_bytes : Bytes → ℕ → Result (Bytes × ℕ)
unfolding get_u32 slice
read_bytes buf offset = do
  throw_if (ltb (length buf) (size_add offset 4)) truncated_length_prefix
  len ← get_u32 buf offset
  let offset' = size_add offset 4
  throw_if (ltb (length buf) (size_add offset' len)) truncated_payload
  out ← slice buf offset' len
  ok (out, size_add offset' len)

pub read_string : Bytes → ℕ → Result (Bytes × ℕ)
unfolding read_bytes
read_string buf offset = do (bytes, offset') ← read_bytes buf offset; ok (bytes, offset')

pub frame_message : MessageType → Bytes → Bytes
frame_message type payload =
    put_u32 (([] ++ protocol_version ∷ []) ++ type_to_byte type ∷ []) (length payload % 2 ^ 32)
    ++ payload

pub parse_header : Bytes → Result MessageHeader
unfolding read_at
parse_header raw = do
  throw_if (ltb (length raw) header_size) header_too_short
  version ← read_at raw 0
  type ← read_at raw 1
  payload_len ← get_u32 raw 2
  throw_if (not (version == protocol_version)) version_mismatch
  ok (record { version = version; type = type_of_byte type; payload_len = payload_len })

unfoldable pub encode_hello : HelloPayload → Bytes
encode_hello p = put_bytes (put_string [] p.device_name) p.x25519_public_key

pub decode_hello : Bytes → Result HelloPayload
unfolding read_string
decode_hello payload = do
  (device_name, offset) ← read_string payload 0
  (x25519_public_key, offset') ← read_bytes payload offset
  ok (record { device_name = device_name; x25519_public_key = x25519_public_key })

unfoldable pub encode_file_offer : FileOfferPayload → Bytes
encode_file_offer p =
    put_u32 (put_bytes (put_u64 (put_string [] p.file_name) p.file_size) p.sha256) p.total_chunks

pub decode_file_offer : Bytes → Result FileOfferPayload
unfolding read_string get_u64
decode_file_offer payload = do
  (file_name, offset) ← read_string payload 0
  throw_if (ltb (length payload) (size_add offset 8)) truncated_file_size
  file_size ← get_u64 payload offset
  (sha256, offset') ← read_bytes payload (size_add offset 8)
  throw_if (ltb (length payload) (size_add offset' 4)) truncated_total_chunks
  total_chunks ← get_u32 payload offset'
  ok (record {
    file_name = file_name;
    file_size = file_size;
    sha256 = sha256;
    total_chunks = total_chunks;
  })

unfoldable pub encode_chunk : ChunkPayload → Bytes
encode_chunk p =
    put_bytes (put_bytes (put_bytes (put_u32 [] p.chunk_index) p.nonce) p.ciphertext) p.tag

pub decode_chunk : Bytes → Result ChunkPayload
unfolding read_bytes
decode_chunk payload = do
  throw_if (ltb (length payload) (size_add 0 4)) truncated_chunk_index
  chunk_index ← get_u32 payload 0
  (nonce, offset) ← read_bytes payload (size_add 0 4)
  (ciphertext, offset') ← read_bytes payload offset
  (tag, offset'') ← read_bytes payload offset'
  ok (record { chunk_index = chunk_index; nonce = nonce; ciphertext = ciphertext; tag = tag })
