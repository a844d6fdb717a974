-- ===== src/Chunking/Outcomes.antt =====
-- All the outcomes of `ReceiveChunk` of core/src/chunking.cpp, over a library that keeps to its
-- manual.
use off_drop.Base.{◌*◌, ◌%◌, ◌^◌, ◌≤◌, ◌<◌, ◌≡◌, refl, ◌⊎◌, inl, inr}
use off_drop.Base.{length, none, some, leb, leb→le, leb→lt, Bool-cases, Option-cases, ◌==◌}
use off_drop.Base.Result.{Error, ok, err, chunk_index_out_of_range, cannot_open_output}
use off_drop.Base.Result.{bad_nonce_size, bad_tag_size, authentication_failed}
use off_drop.Protocol.{Bytes, chunk_size, ChunkPayload}
use off_drop.Files.{open_in_out, put_content, write_to, bytes_eq}
use off_drop.OpenSsl.{OpenSsl}
use off_drop.OpenSsl.Documented.{Standard, Documented}
use off_drop.Crypto.{EncryptedChunk, decrypt_chunk}
use off_drop.Crypto.Seal.{opened, decrypt_chunk-opened}
use off_drop.Chunking.{FileReceiver, Machine, to_encrypted, receive_chunk}
use off_drop.Chunking.Mask.{IsCounted, Marked, mark-Marked}
use off_drop.Chunking.Receiving.{receive_chunk-steps}

-- What a reader makes of a chunk is a text or an exception.
pub opened_cases :
    (std : Standard) (key : Bytes) (chunk : EncryptedChunk)
    → ((text : Bytes) × (opened std key chunk ≡ ok text))
      ⊎ ((e : Error) × (opened std key chunk ≡ err e))
unfolding opened
opened_cases std key chunk = elim (Bool-cases (length chunk.nonce == 12)) [
  | inr nonce ↦ inr (bad_nonce_size, rw nonce refl)
  | inl nonce ↦ elim (Bool-cases (length chunk.tag == 16)) [
    | inr tag ↦ inr (bad_tag_size, rw (nonce, tag) refl)
    | inl tag ↦ elim (Bool-cases (bytes_eq chunk.tag (std.mac key chunk.nonce chunk.ciphertext))) [
      | inl same ↦ inl (std.decrypt key chunk.nonce chunk.ciphertext, rw (nonce, tag, same) refl)
      | inr other ↦ inr (authentication_failed, rw (nonce, tag, other) refl)
    ]
  ]
]

-- What `receive_chunk` does with a chunk: it refuses its index, or what the key makes of it, or the
-- output file cannot be opened, and none of these changes a file or the receiver; or what the disk
-- takes of the text is written at its place and the chunk is marked.
abbrev pub Receives :
    (lib : OpenSsl) → Standard → Bytes → ChunkPayload → Machine lib → FileReceiver → Type 0
Receives lib std key c m r =
    ((r.total_chunks ≤ c.chunk_index)
      × (receive_chunk lib key c (m, r) ≡ (err chunk_index_out_of_range, (m, r))))
    ⊎ ((w' : lib.World) × (e : Error) × (c.chunk_index < r.total_chunks)
        × (opened std key (to_encrypted c) ≡ err e)
        × (receive_chunk lib key c (m, r) ≡ (err e, (record m { ssl = w' }, r))))
    ⊎ ((w' : lib.World) × (text : Bytes) × (c.chunk_index < r.total_chunks)
        × (opened std key (to_encrypted c) ≡ ok text)
        × (open_in_out m.disk r.output_path ≡ none)
        × (receive_chunk lib key c (m, r) ≡ (err cannot_open_output, (record m { ssl = w' }, r))))
    ⊎ ((w' : lib.World) × (text old : Bytes) × (r' : FileReceiver) × (c.chunk_index
          < r.total_chunks)
        × (opened std key (to_encrypted c) ≡ ok text)
        × (open_in_out m.disk r.output_path ≡ some old)
        × (let new = write_to m.disk r.output_path old (c.chunk_index * chunk_size % 2 ^ 64) text in
            receive_chunk lib key c (m, r)
            ≡ (ok tt, (record { ssl = w'; disk = put_content m.disk r.output_path new }, r')))
        × Marked c.chunk_index r r')

module _ (lib : OpenSsl) (std : Standard) (doc : Documented lib std) where
  -- Over a library that keeps to its manual, `receive_chunk` on any chunk whose ciphertext is below
  -- 2 GB, and any receiver whose mask and count belong together, has one of the four outcomes of
  -- `Receives`. An exception leaves the files and the receiver as they were.
  pub receive_chunk_cases :
      (key : Bytes) (c : ChunkPayload) (m : Machine lib) (r : FileReceiver)
      → IsCounted r
      → length c.ciphertext < 2 ^ 31
      → Receives lib std key c m r
  unfolding receive_chunk
  receive_chunk_cases key c m r v small =
      let (w', opens) = decrypt_chunk-opened lib std doc key (to_encrypted c) m.ssl small in
      elim (Bool-cases (leb r.total_chunks c.chunk_index)) [
        | inl out ↦ inl (leb→le _ _ out, rw out refl)
        | inr here ↦
            let inside = leb→lt _ _ here in
            elim (opened_cases std key (to_encrypted c)) [
              | inr (e, refused) ↦
                  inr (inl (w', e, inside, refused, rw (here, opens, refused) refl))
              | inl (text, good) ↦
                  let plain : decrypt_chunk lib key (to_encrypted c) m.ssl ≡ (ok text, w') =
                    rw (opens, good) refl in
                  elim (Option-cases (open_in_out m.disk r.output_path)) [
                    | inl closed ↦
                        inr (
                          inr (inl (w', text, inside, good, closed, rw (here, plain, closed) refl)))
                    | inr (old, there) ↦
                        let (r', marked, done) = mark-Marked c.chunk_index r v inside in
                        inr (
                          inr (
                            inr (
                              w',
                              text,
                              old,
                              r',
                              inside,
                              good,
                              there,
                              receive_chunk-steps lib key c m r r' w' text old here plain there
                                  marked,
                              done,
                            )))
                  ]
            ]
      ]
