-- ===== src/EndToEnd/Wire.antt =====
-- A chunk that goes over the wire in core/tests/test_chunking_e2e.cpp arrives as it was.
use off_drop.Base.{
  ℕ, ◌+◌, ◌^◌, ◌≤◌, ◌<◌, ◌≡◌, ◌≢◌, ◌∙◌, sym, ap, refl, arith, length, append-nil, ◌++◌, [],
}
use off_drop.Base.{eq→==, get_elem?, some}
use off_drop.Base.Result.{ok}
use off_drop.Base.Action.{Action}
use off_drop.Protocol.{Bytes, chunk_size, ChunkPayload, MessageType, frame_message, type_to_byte}
use off_drop.Protocol.{parse_header, encode_chunk, decode_chunk}
use off_drop.Protocol.Format.{IsBuffer}
use off_drop.Protocol.Payloads.{IsChunk, decode_chunk-encode_chunk, length-encode_chunk}
use off_drop.Protocol.Frame.{parse_header-frame_message, drop-frame_message, chunk-IsCast}
use off_drop.OpenSsl.{OpenSsl}
use off_drop.Chunking.{Machine, FileReceiver, receive_chunk}
use off_drop.Transport.{Store, LoopbackTransport, set_on_data_received, connect_peers}
use off_drop.Transport.Delivery.{send-connect_peers}
use off_drop.EndToEnd.{on_chunk_message, send_chunk_message}

-- A chunk of which no block is larger than `EncryptChunk` makes it.
abbrev pub IsWire : ChunkPayload → Type 0
IsWire c = IsChunk c × (length c.nonce + length c.ciphertext + length c.tag ≤ chunk_size + 28)

module _ (lib : OpenSsl) (key : Bytes) (c : ChunkPayload) (wire : IsWire c) where
  message_small : length (encode_chunk c) < 2 ^ 31
  message_small = omega (arith, length-encode_chunk c wire.0)

  parsed :
      parse_header (frame_message MessageType.chunk (encode_chunk c))
      ≡ ok (record { version = 1; type = MessageType.chunk; payload_len = length (encode_chunk c) })
  parsed =
      let whole = append-nil (frame_message MessageType.chunk (encode_chunk c)) in
      ap parse_header (sym whole)
      ∙ (parse_header-frame_message MessageType.chunk (encode_chunk c) [] chunk-IsCast
          (omega (arith, message_small))).0

  decoded : decode_chunk (encode_chunk c) ≡ ok c
  decoded =
      let whole = append-nil (encode_chunk c) in
      let small : IsBuffer (encode_chunk c ++ []) = omega (arith, ap length whole, message_small) in
      ap decode_chunk (sym whole) ∙ decode_chunk-encode_chunk c [] wire.0 small

  -- The handler takes the message of a chunk as a call of `receive_chunk` with that chunk.
  pub on_chunk_message-frame :
      (from : Bytes) (s : Machine lib × FileReceiver)
      → on_chunk_message lib key from (frame_message MessageType.chunk (encode_chunk c)) s
        ≡ receive_chunk lib key c s
  unfolding on_chunk_message
  on_chunk_message-frame from s =
      let body =
        drop-frame_message MessageType.chunk (encode_chunk c) (omega (arith, message_small)) in
      let kind = type_to_byte MessageType.chunk in
      rw (parsed, body, decoded, eq→== kind kind refl) refl

  -- A chunk that the first end sends over two connected transports is received at the second as
  -- `receive_chunk` of that chunk, in each state. The chunk's parts are bytes, its index fits 32
  -- bits, and they are together no longer than a full block, a nonce and a tag.
  pub send_chunk_message-receive :
      (store : Store (Machine lib × FileReceiver)) (a b : ℕ)
      (alice bob : LoopbackTransport (Machine lib × FileReceiver)) (to : Bytes)
      → get_elem? store a ≡ some alice
      → get_elem? store b ≡ some bob
      → a ≢ b
      → (s : Machine lib × FileReceiver)
      → let linked =
          set_on_data_received b (some (on_chunk_message lib key)) (connect_peers a b store) in
        send_chunk_message lib linked a to c s ≡ receive_chunk lib key c s
  unfolding send_chunk_message
  send_chunk_message-receive store a b alice bob to ea eb ne s =
      let message = frame_message MessageType.chunk (encode_chunk c) in
      let sent =
        send-connect_peers store a b alice bob (on_chunk_message lib key) to message ea eb ne in
      ap (λ (call : Action (Machine lib × FileReceiver) (Unit {0})). call s) sent
      ∙ on_chunk_message-frame alice.self_id s
