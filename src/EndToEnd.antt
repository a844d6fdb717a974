-- ===== src/EndToEnd.antt =====
-- The transfer of core/tests/test_chunking_e2e.cpp: what the two ends install on the transports. The
-- state is the machine and the receiver of the second end.
pub mod Wire
pub mod Transfer
pub mod Reorder
pub mod Session
pub mod Bounds
pub mod Bluetooth
use off_drop.Base.{ℕ, ◌^◌, ◌<◌, ◌≡◌, ◌∙◌, sym, ap, refl, arith, length, drop, append-nil, ◌++◌, []}
use off_drop.Base.{not, true, false, ◌==◌, eq→==}
use off_drop.Base.Result.{ok, throw_if, assertion_failed}
use off_drop.Base.Action.{Action, ◌>>=◌, ◌>>◌, lift}
use off_drop.Protocol.{Bytes, ChunkPayload, MessageType, type_to_byte, header_size, frame_message}
use off_drop.Protocol.{parse_header, encode_chunk, decode_chunk, type_of_byte}
use off_drop.OpenSsl.{OpenSsl}
use off_drop.Chunking.{Machine, FileReceiver, ChunkSink, receive_chunk}
use off_drop.Transport.{Store, Handler, send}

-- `bob_transport.SetOnDataReceived([&](const std::string&, const std::vector<uint8_t>& raw) {...})`
pub on_chunk_message : (lib : OpenSsl) → Bytes → Handler (Machine lib × FileReceiver)
on_chunk_message lib session_key peer_id raw = do
  header ← lift (parse_header raw)
  lift
      (throw_if (not (type_to_byte header.type == type_to_byte MessageType.chunk)) assertion_failed)
  chunk ← lift (decode_chunk (drop header_size raw))
  receive_chunk lib session_key chunk

-- `SendFileChunks(src_path, session_key_alice, [&](const ChunkPayload& chunk) {...})`
pub send_chunk_message :
    (lib : OpenSsl) → Store (Machine lib × FileReceiver) → ℕ → Bytes → ChunkSink lib FileReceiver
send_chunk_message lib store alice to chunk =
    send store alice to (frame_message MessageType.chunk (encode_chunk chunk))
