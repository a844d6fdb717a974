-- ===== src/Chunking.antt =====
-- core/include/chunking.hpp and core/src/chunking.cpp: the file that is offered, cut into chunks and
-- put together again. `Machine` is what a process works on: the library's state and the files.
-- `SendFileChunks` reads the file as it was when it was opened.
pub mod Mask
pub mod Canvas
pub mod Refine
pub mod Blocks
pub mod Receiving
pub mod Opening
pub mod Assembly
pub mod Transfer
pub mod Sending
pub mod Outcomes
pub mod Collect
pub mod Channel
pub mod Reindex
pub mod Defined
pub mod Offer
pub mod AnyDisk
pub mod Arrivals
use off_drop.Base.{ℕ, zero, suc, ◌+◌, ◌-◌, ◌*◌, ◌/◌, ◌%◌, ◌^◌}
use off_drop.Base.{List, [], ◌∷◌, ◌++◌, length, get_elem?, set, replicate, Option, none, some}
use off_drop.Base.{Bool, true, false, ltb, leb, ◌==◌, if◌then◌else◌}
use off_drop.Base.Result.{ok, fault, throw_if}
use off_drop.Base.Result.{
  file_not_found, cannot_open_file, cannot_create_output, chunk_index_out_of_range,
  cannot_open_output,
}
use off_drop.Base.Action.{Action, pure, ◌>>=◌, ◌>>◌, lift, or_throw}
use off_drop.Protocol.{Bytes, chunk_size, FileOfferPayload, ChunkPayload}
use off_drop.Files.{FileSystem, Stream, open_in, open_trunc, open_in_out, put_content, read_block}
use off_drop.Files.{write_to, bytes_eq}
use off_drop.OpenSsl.{OpenSsl}
use off_drop.Crypto.{EncryptedChunk, encrypt_chunk, decrypt_chunk, sha256_file}

-- `fs::path(file_path).filename()`: what stands behind the last `/`.
filename_loop : Bytes → Bytes → Bytes
filename_loop name [] = name
filename_loop name (c ∷ path) = filename_loop (if c == b'/' then [] else name ++ c ∷ []) path

pub filename : Bytes → Bytes
unfolding filename_loop
filename path = filename_loop [] path

-- `(file_size + kChunkSize - 1) / kChunkSize` at 64 bits, cast to 32 bits; 0 for an empty file.
unfoldable pub chunk_count : ℕ → ℕ
chunk_count size =
    if size == 0
    then 0
    else ((size + chunk_size) % 2 ^ 64 + 2 ^ 64 - 1) % 2 ^ 64 / chunk_size % 2 ^ 32

-- The chunk with which an encrypted block goes out, and back.
abbrev pub to_payload : ℕ → EncryptedChunk → ChunkPayload
to_payload index enc = record {
  chunk_index = index;
  nonce = enc.nonce;
  ciphertext = enc.ciphertext;
  tag = enc.tag;
}

abbrev pub to_encrypted : ChunkPayload → EncryptedChunk
to_encrypted chunk = record { nonce = chunk.nonce; ciphertext = chunk.ciphertext; tag = chunk.tag }

pub record FileReceiver : Type 0 where
  pub output_path : Bytes
  pub expected_size : ℕ
  pub total_chunks : ℕ
  pub received_count : ℕ
  pub expected_sha256 : Bytes
  pub received_mask : List Bool

-- `f.seekp(expected_size - 1); f.put('\0')` on the new file. An offset that is no `streamoff` makes
-- the seek fail, and then nothing is put.
pub preallocated : FileSystem → Bytes → ℕ → Bytes
preallocated fs path size =
    if size == 0
    then []
    else if ltb (size - 1) (2 ^ 63)
    then write_to fs path [] (size - 1) (0 ∷ [])
    else []

pub is_complete : FileReceiver → Bool
is_complete r = r.received_count == r.total_chunks

-- The `if` at the end of `ReceiveChunk`. `received_mask_[i]` outside of the mask is undefined.
pub mark : ℕ → FileReceiver → Option FileReceiver
mark i r = elim (get_elem? r.received_mask i) [
  | none ↦ none
  | some true ↦ some r
  | some false ↦ some (record r {
    received_mask = set r.received_mask i true;
    received_count = (r.received_count + 1) % 2 ^ 32;
  })
]

module _ (lib : OpenSsl) where
  pub record Machine : Type 0 where
    pub ssl : lib.World
    pub disk : FileSystem

  -- A call of crypto.cpp, on a machine and on a machine beside another state.
  abbrev on_ssl {ℓ} : {A : Type ℓ} → Action lib.World A → Action Machine A
  on_ssl call m = let (r, w) = call m.ssl in (r, record m { ssl = w })

  abbrev beside {ℓ} : {A : Type ℓ} {T : Type 0} → Action Machine A → Action (Machine × T) A
  beside call (m, t) = let (r, m') = call m in (r, (m', t))

  pub prepare_file_offer : Bytes → Action Machine FileOfferPayload
  prepare_file_offer file_path m =
      (or_throw file_not_found (m.disk.content file_path) >>= λ bytes.
      on_ssl (sha256_file lib m.disk file_path) >>= λ sha256. pure (record {
        file_name = filename file_path;
        file_size = length bytes;
        sha256 = sha256;
        total_chunks = chunk_count (length bytes);
      }))
        m

  -- A `ChunkSink`, which works on a state of its own beside the machine.
  abbrev pub ChunkSink : Type 0 → Type 0
  ChunkSink T = ChunkPayload → Action (Machine × T) (Unit {0})

  module _ {T : Type 0} (session_key : Bytes) (sink : ChunkSink T) where
    -- The rounds of `while (f)`, from the chunk `index` on. A block with no byte ends the loop.
    send_loop : ℕ → ℕ → Stream → Action (Machine × T) (Unit {0})
    send_loop zero index f = lift fault
    send_loop (suc fuel) index f = elim f.good [
      | true ↦
          let (block, f') = read_block chunk_size f in
          elim block [
            | [] ↦ pure tt
            | b ∷ bytes ↦ beside (on_ssl (encrypt_chunk lib session_key (b ∷ bytes))) >>= λ enc.
                sink (to_payload index enc) >> send_loop fuel ((index + 1) % 2 ^ 32) f'
          ]
      | false ↦ pure tt
    ]

    pub send_file_chunks : Bytes → Action (Machine × T) (Unit {0})
    unfolding send_loop
    send_file_chunks file_path (m, t) =
        (or_throw cannot_open_file (open_in m.disk file_path) >>= λ unread.
        send_loop (length unread + 2) 0 (record { unread = unread; good = true }))
          (m, t)

  -- The constructor of `FileReceiver`.
  pub file_receiver : Bytes → ℕ → ℕ → Bytes → Action Machine FileReceiver
  unfolding preallocated
  file_receiver output_path expected_size total_chunks expected_sha256 m =
      (or_throw cannot_create_output (open_trunc m.disk output_path) >>= λ disk m'. (
        ok (record {
          output_path = output_path;
          expected_size = expected_size;
          total_chunks = total_chunks;
          received_count = 0;
          expected_sha256 = expected_sha256;
          received_mask = replicate total_chunks false;
        }),
        record m' {
          disk = put_content disk output_path (preallocated disk output_path expected_size);
        },
      ))
        m

  -- `f.seekp(offset); f.write(plaintext)` on the open output file.
  write_chunk : Bytes → ℕ → Bytes → Bytes → Action Machine (Unit {0})
  write_chunk path index plaintext old m = (
    ok tt,
    record m {
      disk =
          put_content m.disk path
            (write_to m.disk path old (index * chunk_size % 2 ^ 64) plaintext);
    },
  )

  -- The mask and the count behind the write.
  mark_chunk : ℕ → Action (Machine × FileReceiver) (Unit {0})
  mark_chunk index (m, r) = elim (mark index r) [
    | none ↦ (fault, (m, r))
    | some r' ↦ (ok tt, (m, r'))
  ]

  pub receive_chunk : Bytes → ChunkPayload → Action (Machine × FileReceiver) (Unit {0})
  unfolding write_chunk
  receive_chunk session_key chunk (m, r) =
      (lift (throw_if (leb r.total_chunks chunk.chunk_index) chunk_index_out_of_range)
          >> (beside (on_ssl (decrypt_chunk lib session_key (to_encrypted chunk))) >>= λ plaintext.
              or_throw cannot_open_output (open_in_out m.disk r.output_path) >>= λ old.
              beside (write_chunk r.output_path chunk.chunk_index plaintext old)
              >> mark_chunk chunk.chunk_index))
        (m, r)

  pub verify_integrity : FileReceiver → Action Machine Bool
  verify_integrity r m =
      (on_ssl (sha256_file lib m.disk r.output_path) >>= λ actual.
      pure (bytes_eq actual r.expected_sha256))
        m
