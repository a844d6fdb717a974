-- ===== src/Chunking/Reindex.antt =====
-- The index of a chunk is not under its tag: what `ReceiveChunk` of core/src/chunking.cpp does with a
-- chunk whose index was changed on the way.
use off_drop.Base.{
  ℕ, ◌+◌, ◌*◌, ◌%◌, ◌^◌, ◌≤◌, ◌<◌, ◌≡◌, refl, ◌∙◌, arith, length, get_elem?, true, some,
}
use off_drop.Base.{lt→leb}
use off_drop.Base.Result.{ok}
use off_drop.Protocol.{Bytes, chunk_size, ChunkPayload}
use off_drop.Files.{open_in_out, put_content, write_at, write_to-write_at}
use off_drop.Files.Write.{get_elem?-write_at}
use off_drop.OpenSsl.{OpenSsl}
use off_drop.OpenSsl.Documented.{Standard, Documented}
use off_drop.Crypto.Seal.{opened, decrypt_chunk-opened}
use off_drop.Chunking.{FileReceiver, Machine, chunk_count, to_encrypted, receive_chunk}
use off_drop.Chunking.Blocks.{block, IsSendable, block_start}
use off_drop.Chunking.Mask.{mark-Marked}
use off_drop.Chunking.Receiving.{IsReceiving, receive_chunk-steps, open_in_out-put_content}

module _ (lib : OpenSsl) (std : Standard) (doc : Documented lib std) (key file : Bytes)
    (sendable : IsSendable file) where
  -- A chunk of the file whose index was changed on the way to another one in range is accepted as the
  -- other chunk by a receiver under way: the call returns, the other index is marked, and the block
  -- stands at the other chunk's place. The key opens the chunk to its block, which fits there, the
  -- file is below 32 TB, and the library keeps to its manual.
  pub receive_chunk_reindexed :
      (i j : ℕ) (c : ChunkPayload) (m : Machine lib) (r : FileReceiver) (d : Bytes)
      → IsReceiving file m.disk r d
      → opened std key (to_encrypted c) ≡ ok (block file i)
      → length c.ciphertext < 2 ^ 31
      → j < chunk_count (length file)
      → j * chunk_size + length (block file i) ≤ length file
      → (m' : Machine lib) × (r' : FileReceiver) × (d' : Bytes) × (receive_chunk lib key
            (record c { chunk_index = j })
            (m, r)
          ≡ (ok tt, (m', r')))
        × (get_elem? r'.received_mask j ≡ some true)
        × (open_in_out m'.disk r'.output_path ≡ some d')
        × ((k : ℕ)
            → k < length (block file i)
            → get_elem? d' (j * chunk_size + k) ≡ get_elem? (block file i) k)
  receive_chunk_reindexed i j c m r d v opens small h fits =
      let moved : ChunkPayload = record c { chunk_index = j } in
      let (w', decrypted) = decrypt_chunk-opened lib std doc key (to_encrypted c) m.ssl small in
      let inside : j < r.total_chunks = omega (arith, v.total) in
      let (r', marked, done) = mark-Marked j r v.valid inside in
      let start = block_start (length file) j sendable h in
      let at : j * chunk_size % 2 ^ 64 ≡ j * chunk_size = omega arith in
      let d' = write_at d (j * chunk_size) (block file i) in
      let steps =
        receive_chunk-steps lib key moved m r r' w' (block file i) d
          (lt→leb r.total_chunks j inside) (decrypted ∙ rw opens refl) v.there marked in
      (
        record { ssl = w'; disk = put_content m.disk r.output_path d' },
        r',
        d',
        rw
            (
              ← write_to-write_at m.disk r.output_path d (j * chunk_size) (block file i) v.writes,
              ← at,
            )
            steps,
        done.here,
        rw done.same.output_path (open_in_out-put_content m.disk r.output_path d d' v.there),
        get_elem?-write_at d (j * chunk_size) (block file i) (omega (arith, v.size)),
      )
