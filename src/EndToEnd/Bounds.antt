-- ===== src/EndToEnd/Bounds.antt =====
-- How long the messages are that `SendFileChunks` puts on the transports in
-- core/tests/test_chunking_e2e.cpp.
use off_drop.Base.{
  ℕ, ◌+◌, ◌*◌, ◌^◌, ◌≤◌, ◌<◌, ◌≡◌, ◌∙◌, subst, arith, List, [], length, All, get_elem?, some,
}
use off_drop.Base.Result.{ok}
use off_drop.Protocol.{
  Bytes, IsByte, chunk_size, ChunkPayload, MessageType, frame_message, encode_chunk,
}
use off_drop.Protocol.Frame.{length-frame_message}
use off_drop.Protocol.Payloads.{length-encode_chunk}
use off_drop.Files.{open_in}
use off_drop.OpenSsl.{OpenSsl}
use off_drop.OpenSsl.Documented.{Standard, Documented}
use off_drop.Chunking.{Machine, chunk_count, send_file_chunks}
use off_drop.Chunking.Blocks.{
  block, IsSendable, block_start, block_inside, block_end, length-block-le, chunk_count-lt,
}
use off_drop.Chunking.Collect.{collect, send_file_chunks-HasSent}
use native.Mathlib.Decide.{ℕ_discrete}
use off_drop.Chunking.Sending.{IsSent}

-- The message of the chunk `i`: its index, its place in the file, and its length.
pub record Fits (file : Bytes) (i : ℕ) (c : ChunkPayload) : Type 0 where
  pub index : c.chunk_index ≡ i
  pub counted : i < 2 ^ 32
  pub begins : i * chunk_size < length file
  pub ends : i * chunk_size + length (block file i) ≤ length file
  pub message :
      length (frame_message MessageType.chunk (encode_chunk c)) ≡ length (block file i) + 50
  pub least : 51 ≤ length (frame_message MessageType.chunk (encode_chunk c))
  pub most : length (frame_message MessageType.chunk (encode_chunk c)) ≤ 16434

-- No block is empty.
block_filled : (file : Bytes) (i : ℕ) → i * chunk_size < length file → 1 ≤ length (block file i)
block_filled file i start = elim (ℕ_discrete (length (block file i)) 0) [
  | yes empty ↦
      absurd (omega (arith, start, block_end file i 0 (omega arith) (omega (arith, empty))))
  | no some_bytes ↦ omega (arith, some_bytes)
]

IsSent-Fits :
    (lib : OpenSsl) (key file : Bytes) (i : ℕ) (c : ChunkPayload)
    → IsSendable file
    → IsSent lib key file i c
    → Fits file i c
IsSent-Fits lib key file i c sendable sent =
    let h = subst (λ (k : ℕ). k < chunk_count (length file)) sent.index sent.genuine.in_range in
    let start = block_start (length file) i sendable h in
    let payload = length-encode_chunk c sent.wire in
    let whole =
      length-frame_message MessageType.chunk (encode_chunk c)
        (omega (arith, payload, sent.short)) in
    let message : length (frame_message MessageType.chunk (encode_chunk c))
        ≡ length (block file i) + 50 =
      whole ∙ omega (arith, payload, sent.size) in
    record {
      index = sent.index;
      counted = omega (arith, h, chunk_count-lt (length file) sendable);
      begins = start;
      ends = block_inside file i (omega (arith, start));
      message = message;
      least = omega (arith, message, block_filled file i start);
      most = omega (arith, message, length-block-le file i);
    }

module _ (lib : OpenSsl) (std : Standard) (doc : Documented lib std) where
  -- `send_file_chunks` of a file below 32 TB hands out one chunk for each block, each with its
  -- place as its index, which fits 32 bits; the blocks lie within the file, and the message of a
  -- chunk is 50 bytes longer than its block, from 51 to 16434 bytes. The file is of bytes and can
  -- be opened, and the library keeps to its manual.
  pub send_file_chunks-Fits :
      (key file path : Bytes) (m : Machine lib)
      → IsSendable file
      → All IsByte file
      → open_in m.disk path ≡ some file
      → (s : Machine lib × List ChunkPayload) × (send_file_chunks lib key (collect lib) path (m, [])
          ≡ (ok tt, s))
        × (length s.1 ≡ chunk_count (length file))
        × ((i : ℕ) (c : ChunkPayload) → get_elem? s.1 i ≡ some c → Fits file i c)
  send_file_chunks-Fits key file path m sendable bytes opened =
      let (s, sent, v) =
        send_file_chunks-HasSent lib std doc key file path m sendable bytes opened in
      (s, sent, v.count, λ i c e. IsSent-Fits lib key file i c sendable (v.each i c e))
