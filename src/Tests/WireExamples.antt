-- ===== src/Tests/WireExamples.antt =====
-- The encoders and decoders of core/src/protocol.cpp at concrete messages.
use off_drop.Base.{◌≡◌, arith, [], ◌∷◌, ◌++◌, take, drop}
use off_drop.Base.Result.{ok}
use off_drop.Protocol.{
  HelloPayload, FileOfferPayload, ChunkPayload, MessageType, header_size, protocol_version,
}
use off_drop.Protocol.{encode_hello, decode_hello, encode_file_offer, decode_file_offer}
use off_drop.Protocol.{put_u32, put_u64, put_u64_loop, put_bytes, put_string}
use off_drop.Protocol.{encode_chunk, decode_chunk, frame_message, parse_header}
use off_drop.Protocol.Codec.{Decodes}
use off_drop.Protocol.Payloads.{IsHello, decode_hello-encode_hello}
use off_drop.Protocol.Payloads.{
  IsFileOffer, decode_file_offer-encode_file_offer, decode_file_offer_cases,
}
use off_drop.Protocol.Payloads.{IsChunk, decode_chunk-encode_chunk, decode_chunk_cases}
use off_drop.Protocol.Frame.{Parses, chunk-IsCast, parse_header-frame_message, parse_header_cases}

abbrev greeting : HelloPayload
greeting = record { device_name = b'm' ∷ b'b' ∷ []; x25519_public_key = 1 ∷ 2 ∷ 3 ∷ [] }

greeting-IsHello : IsHello greeting
greeting-IsHello = (
  ((omega arith, (omega arith, tt)), omega arith),
  ((omega arith, (omega arith, (omega arith, tt))), omega arith),
)

abbrev offer : FileOfferPayload
offer = record { file_name = b'a' ∷ []; file_size = 300; sha256 = 9 ∷ 8 ∷ []; total_chunks = 1 }

offer-IsFileOffer : IsFileOffer offer
offer-IsFileOffer = (
  ((omega arith, tt), omega arith),
  (omega arith, (((omega arith, (omega arith, tt)), omega arith), omega arith)),
)

abbrev piece : ChunkPayload
piece = record { chunk_index = 5; nonce = 1 ∷ []; ciphertext = 2 ∷ 255 ∷ []; tag = 3 ∷ [] }

piece-IsChunk : IsChunk piece
piece-IsChunk = (
  omega arith,
  (
    ((omega arith, tt), omega arith),
    (((omega arith, (omega arith, tt)), omega arith), ((omega arith, tt), omega arith)),
  ),
)

decode_hello-encode_hello_example : decode_hello (encode_hello greeting ++ 7 ∷ []) ≡ ok greeting
unfolding encode_hello put_bytes put_string put_u32
decode_hello-encode_hello_example =
    decode_hello-encode_hello greeting (7 ∷ []) greeting-IsHello (omega arith)

decode_file_offer-encode_file_offer_example :
    decode_file_offer (encode_file_offer offer ++ []) ≡ ok offer
unfolding encode_file_offer put_bytes put_string put_u32 put_u64 put_u64_loop
decode_file_offer-encode_file_offer_example =
    decode_file_offer-encode_file_offer offer [] offer-IsFileOffer (omega arith)

decode_file_offer_cases_example :
    Decodes IsFileOffer encode_file_offer decode_file_offer (0 ∷ 0 ∷ 0 ∷ 0 ∷ 9 ∷ [])
decode_file_offer_cases_example =
    decode_file_offer_cases (0 ∷ 0 ∷ 0 ∷ 0 ∷ 9 ∷ [])
      (omega arith, (omega arith, (omega arith, (omega arith, (omega arith, tt))))) (omega arith)

decode_chunk-encode_chunk_example : decode_chunk (encode_chunk piece ++ 0 ∷ []) ≡ ok piece
unfolding encode_chunk put_bytes put_u32
decode_chunk-encode_chunk_example =
    decode_chunk-encode_chunk piece (0 ∷ []) piece-IsChunk (omega arith)

decode_chunk_cases_example : Decodes IsChunk encode_chunk decode_chunk (5 ∷ 0 ∷ [])
decode_chunk_cases_example =
    decode_chunk_cases (5 ∷ 0 ∷ []) (omega arith, (omega arith, tt)) (omega arith)

parse_header-frame_message_example :
    let raw = frame_message MessageType.chunk (4 ∷ 2 ∷ []) ++ 9 ∷ [] in
    (parse_header raw
      ≡ ok (record { version = protocol_version; type = MessageType.chunk; payload_len = 2 }))
    × (take 2 (drop header_size raw) ≡ 4 ∷ 2 ∷ [])
parse_header-frame_message_example =
    parse_header-frame_message MessageType.chunk (4 ∷ 2 ∷ []) (9 ∷ []) chunk-IsCast (omega arith)

parse_header_cases_example : Parses (2 ∷ 6 ∷ 0 ∷ 0 ∷ 0 ∷ 0 ∷ [])
parse_header_cases_example =
    parse_header_cases (2 ∷ 6 ∷ 0 ∷ 0 ∷ 0 ∷ 0 ∷ [])
      (omega arith, (omega arith, (omega arith, (omega arith, (omega arith, (omega arith, tt))))))
