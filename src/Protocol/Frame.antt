-- ===== src/Protocol/Frame.antt =====
-- `FrameMessage` and `ParseHeader` of core/src/protocol.cpp: the six bytes in front of a payload.
use off_drop.Base.{ℕ, ◌+◌, length-append, ◌≤◌, ◌<◌, ◌≡◌, refl, ap, ◌∙◌, ◌≢◌, ◌⊎◌, inl, inr, arith}
use off_drop.Base.{
  [], ◌∷◌, ◌++◌, length, take, drop, All, take-append, append_assoc, ◌==◌, ltb, le→ltb, false,
}
use off_drop.Base.{Bool-cases}
use off_drop.Base.Result.{ok, err, header_too_short, version_mismatch}
use off_drop.Protocol.{Bytes, IsByte, IsU32, MessageType, MessageHeader, type_to_byte, type_of_byte}
use off_drop.Protocol.{protocol_version, header_size, frame_message, parse_header}
use off_drop.Protocol.Words.{le32, put_u32-le32, get_u32-append, get_u32-le32, u32_of, le32-u32_of}
use native.Mathlib.Nat.{mod-eq_of_lt}

-- A value of the enumeration's underlying type.
abbrev pub IsCast : MessageType → Type 0
IsCast t = (b : ℕ) × IsByte b × (t ≡ type_of_byte b)

-- A cast from a byte and back gives the byte, named or not.
pub type_to_byte-type_of_byte : (b : ℕ) → type_to_byte (type_of_byte b) ≡ b
unfolding type_to_byte type_of_byte
type_to_byte-type_of_byte b = ground arith

type_of_byte-type_to_byte : (t : MessageType) → IsCast t → type_of_byte (type_to_byte t) ≡ t
type_of_byte-type_to_byte t (b, _, e) = rw e (ap type_of_byte (type_to_byte-type_of_byte b))

pub chunk-IsCast : IsCast MessageType.chunk
unfolding type_of_byte
chunk-IsCast = (0x06, omega arith, refl)

abbrev header_of : ℕ → MessageType → ℕ → MessageHeader
header_of version type len = record { version = version; type = type; payload_len = len }

frame_message-bytes :
    (t : MessageType) (payload : Bytes)
    → IsU32 (length payload)
    → frame_message t payload ≡ 1 ∷ type_to_byte t ∷ (le32 (length payload) ++ payload)
unfolding frame_message
frame_message-bytes t payload wide = simp (put_u32-le32, mod-eq_of_lt wide, append_assoc)

parse_header-bytes :
    (b len : ℕ) (rest : Bytes)
    → IsU32 len
    → parse_header (1 ∷ b ∷ (le32 len ++ rest)) ≡ ok (header_of 1 (type_of_byte b) len)
unfolding parse_header
parse_header-bytes b len rest wide =
    let raw : Bytes = 1 ∷ b ∷ (le32 len ++ rest) in
    let enough : ltb (length raw) header_size ≡ false = le→ltb _ _ (omega arith) in
    rw (enough, get_u32-le32 (1 ∷ b ∷ []) rest len wide)

-- `parse_header` reads the header that `frame_message` wrote, whatever follows the message, and the
-- payload is what stands behind it, over the length that the header gives. The payload is shorter
-- than 2^32 bytes.
pub parse_header-frame_message :
    (t : MessageType) (payload rest : Bytes)
    → IsCast t
    → IsU32 (length payload)
    → (parse_header (frame_message t payload ++ rest)
        ≡ ok (record { version = protocol_version; type = t; payload_len = length payload }))
      × (take (length payload) (drop header_size (frame_message t payload ++ rest)) ≡ payload)
parse_header-frame_message t payload rest cast wide = rw (frame_message-bytes t payload wide) (
  parse_header-bytes (type_to_byte t) (length payload) (payload ++ rest) wide
      ∙ ap (λ (u : MessageType). ok (header_of 1 u (length payload)))
          (type_of_byte-type_to_byte t cast),
  take-append payload rest,
)

-- A message is six bytes longer than its payload.
pub length-frame_message :
    (t : MessageType) (payload : Bytes)
    → IsU32 (length payload)
    → length (frame_message t payload) ≡ header_size + length payload
length-frame_message t payload wide =
    ap length (frame_message-bytes t payload wide)
    ∙ omega (arith, length-append (le32 (length payload)) payload)

-- What stands behind the header is the payload.
pub drop-frame_message :
    (t : MessageType) (payload : Bytes)
    → IsU32 (length payload)
    → drop header_size (frame_message t payload) ≡ payload
drop-frame_message t payload wide = rw (frame_message-bytes t payload wide) refl

-- The outcomes of `parse_header`: the bytes are too few, their version is another, or they begin
-- with the header that it gives.
abbrev pub Parses : Bytes → Type 0
Parses raw =
    ((length raw < header_size) × (parse_header raw ≡ err header_too_short))
    ⊎ ((v : ℕ) × (rest : Bytes) × (v ≢ protocol_version)
        × (header_size ≤ length raw)
        × (raw ≡ v ∷ rest)
        × (parse_header raw ≡ err version_mismatch))
    ⊎ ((h : MessageHeader) × (rest : Bytes) × (h.version ≡ protocol_version)
        × IsCast h.type
        × IsU32 h.payload_len
        × (raw ≡ h.version ∷ type_to_byte h.type ∷ (le32 h.payload_len ++ rest))
        × (parse_header raw ≡ ok h))

-- Every sequence of bytes has one of the three outcomes, and none is read past its end.
pub parse_header_cases : (raw : Bytes) → All IsByte raw → Parses raw
unfolding parse_header
parse_header_cases (v ∷ b ∷ c ∷ d ∷ e ∷ f ∷ rest) (hv, (hb, (hc, (hd, (he, (hf, hr)))))) =
    let raw : Bytes = v ∷ b ∷ c ∷ d ∷ e ∷ f ∷ rest in
    let enough : ltb (length raw) header_size ≡ false = le→ltb _ _ (omega arith) in
    let (wide, same) = le32-u32_of c d e f (hc, hd, he, hf) in
    let word = get_u32-append (v ∷ b ∷ []) rest c d e f hc hd he hf in
    elim (Bool-cases (v == protocol_version)) [
      | inl this ↦ inr (
          inr (
            header_of v (type_of_byte b) (u32_of c d e f),
            rest,
            ground arith,
            (b, hb, refl),
            wide,
            rw type_to_byte-type_of_byte (ap (λ (t : Bytes). v ∷ b ∷ (t ++ rest)) same),
            rw (enough, word, this),
          ))
      | inr other ↦ inr (
          inl (
            v,
            b ∷ c ∷ d ∷ e ∷ f ∷ rest,
            ground arith,
            omega arith,
            refl,
            rw (enough, word, other),
          ))
    ]
parse_header_cases raw h = inl (omega arith, refl)
