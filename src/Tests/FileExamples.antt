-- ===== src/Tests/FileExamples.antt =====
-- core/src/crypto.cpp and core/src/chunking.cpp at a file of three bytes, over the library of
-- Tests/Toy.antt.
use off_drop.Base.{
  ℕ, zero, suc, replicate, ◌≡◌, ◌≢◌, ◌<◌, refl, inl, arith, List, [], ◌∷◌, length, get_elem?, true,
  false, none, some, if◌then◌else◌,
}
use off_drop.Base.Result.{ok}
use off_drop.Protocol.{Bytes, ChunkPayload}
use off_drop.Files.{FileSystem, open_in, open_in_out, bytes_eq}
use off_drop.Crypto.{EncryptedChunk, encrypt_chunk, decrypt_chunk, sha256_file, sha256_bytes}
use off_drop.Crypto.Seal.{opened}
use off_drop.Crypto.Seal.{decrypt_chunk-encrypt_chunk, decrypt_chunk-opened}
use off_drop.Crypto.Digest.{sha256_file-sha256}
use off_drop.Chunking.{
  Machine, FileReceiver, chunk_count, file_receiver, send_file_chunks, receive_chunk, is_complete,
  verify_integrity, to_encrypted,
}
use off_drop.Chunking.Blocks.{block}
use off_drop.Chunking.Canvas.{canvas}
use off_drop.Chunking.Refine.{take_all, has_all, receive_all-canvas}
use off_drop.EndToEnd.Bounds.{Fits, send_file_chunks-Fits}
use off_drop.Chunking.Mask.{count_true, IsCounted}
use off_drop.Chunking.Receiving.{IsReceiving, IsGenuine, Received, receive_chunk-Received}
use off_drop.Chunking.Assembly.{receive_all, Comes}
use off_drop.Chunking.Transfer.{receive_all-assembles}
use off_drop.Chunking.Outcomes.{Receives, receive_chunk_cases}
use off_drop.Chunking.Collect.{collect, HasSent, send_file_chunks-HasSent}
use off_drop.EndToEnd.Wire.{IsWire}
use off_drop.Tests.Toy.{toy_ssl, toy_standard, toy-Documented, replicate-IsByte}
use off_drop.Tests.FileData.{
  key, source_path, output_path, three_bytes, disk, machine, three_bytes-IsByte, sendable,
  source_opens, writable,
}

-- The one chunk of the file, under a nonce of sevens.
abbrev pub only_chunk : ChunkPayload
only_chunk = record {
  chunk_index = 0;
  nonce = replicate 12 7;
  ciphertext = three_bytes;
  tag = replicate 16 3;
}

pub only_chunk-IsGenuine : IsGenuine toy_ssl key three_bytes only_chunk
unfolding opened bytes_eq block chunk_count
only_chunk-IsGenuine = record {
  in_range = omega arith;
  opens = λ w.
      decrypt_chunk-opened toy_ssl toy_standard toy-Documented key (to_encrypted only_chunk) w
        (omega arith);
}

pub every_index : (i : ℕ) → i < chunk_count (length three_bytes) → Comes i (only_chunk ∷ [])
unfolding chunk_count
every_index i h = inl (omega arith)

receive_all-assembles_example :
    (r r' : FileReceiver) × (m0 m' m'' : Machine toy_ssl) × (file_receiver toy_ssl output_path 3
        (chunk_count 3)
        three_bytes
        machine
      ≡ (ok r, m0))
    × (receive_all toy_ssl key (only_chunk ∷ []) (m0, r) ≡ (ok tt, (m', r')))
    × (is_complete r' ≡ true)
    × (open_in m'.disk output_path ≡ some three_bytes)
    × (verify_integrity toy_ssl r' m' ≡ (ok true, m''))
receive_all-assembles_example =
    receive_all-assembles toy_ssl toy_standard toy-Documented key three_bytes output_path machine
      (only_chunk ∷ []) sendable refl writable (only_chunk-IsGenuine, tt) every_index

abbrev pub zeros : Bytes
zeros = 0 ∷ 0 ∷ 0 ∷ []

abbrev output_disk : FileSystem
output_disk = record disk {
  content = λ path. if bytes_eq path output_path then some zeros else none;
}

abbrev pub output_machine : Machine toy_ssl
output_machine = record { ssl = 0; disk = output_disk }

abbrev pub receiver : FileReceiver
receiver = record {
  output_path = output_path;
  expected_size = 3;
  total_chunks = 1;
  received_count = 0;
  expected_sha256 = three_bytes;
  received_mask = false ∷ [];
}

pub receiver-IsCounted : IsCounted receiver
unfolding count_true
receiver-IsCounted = record { wide = refl; counted = refl; small = omega arith }

none_yet : (i : ℕ) → get_elem? receiver.received_mask i ≢ some true
none_yet zero e = cc
none_yet (suc i) e = cc

pub receiver-IsReceiving : IsReceiving three_bytes output_disk receiver zeros
unfolding chunk_count open_in_out bytes_eq
receiver-IsReceiving = record {
  total = refl;
  valid = receiver-IsCounted;
  there = refl;
  writes = record { opens = refl; whole = λ file at bytes. omega arith };
  size = refl;
  blocks = λ i e. absurd (none_yet i e);
}

receive_chunk-Received_example :
    (m' : Machine toy_ssl) × (r' : FileReceiver) × (d' : Bytes) × (receive_chunk toy_ssl key
        only_chunk
        (output_machine, receiver)
      ≡ (ok tt, (m', r')))
    × Received toy_ssl three_bytes 0 output_machine m' receiver r' d'
receive_chunk-Received_example =
    receive_chunk-Received toy_ssl key three_bytes sendable only_chunk output_machine receiver zeros
      only_chunk-IsGenuine receiver-IsReceiving

receive_chunk_cases_example : Receives toy_ssl toy_standard key only_chunk output_machine receiver
receive_chunk_cases_example =
    receive_chunk_cases toy_ssl toy_standard toy-Documented key only_chunk output_machine receiver
      receiver-IsCounted (omega arith)

send_file_chunks-HasSent_example :
    (s : Machine toy_ssl × List ChunkPayload) × (send_file_chunks toy_ssl key
        (collect toy_ssl)
        source_path
        (machine, [])
      ≡ (ok tt, s))
    × HasSent toy_ssl key three_bytes disk (chunk_count 3) s
send_file_chunks-HasSent_example =
    send_file_chunks-HasSent toy_ssl toy_standard toy-Documented key three_bytes source_path machine
      sendable three_bytes-IsByte source_opens

sha256_file-sha256_example :
    (w' : ℕ) × (sha256_file toy_ssl disk source_path 0 ≡ (ok three_bytes, w'))
    × (sha256_bytes toy_ssl three_bytes 0 ≡ (ok three_bytes, 0))
sha256_file-sha256_example =
    sha256_file-sha256 toy_ssl toy_standard toy-Documented disk source_path three_bytes 0
      source_opens

decrypt_chunk-encrypt_chunk_example :
    (chunk : EncryptedChunk) × (w' : ℕ) × (v' : ℕ) × (encrypt_chunk toy_ssl key three_bytes 0
      ≡ (ok chunk, w'))
    × (decrypt_chunk toy_ssl key chunk 5 ≡ (ok three_bytes, v'))
decrypt_chunk-encrypt_chunk_example =
    decrypt_chunk-encrypt_chunk toy_ssl toy_standard toy-Documented key three_bytes 0 5
      (omega arith)

abbrev forged : EncryptedChunk
forged = record { nonce = replicate 12 7; ciphertext = three_bytes; tag = replicate 16 4 }

decrypt_chunk-opened_example :
    (w' : ℕ) × (decrypt_chunk toy_ssl key forged 0 ≡ (opened toy_standard key forged, w'))
decrypt_chunk-opened_example =
    decrypt_chunk-opened toy_ssl toy_standard toy-Documented key forged 0 (omega arith)

pub only_chunk-IsWire : IsWire only_chunk
only_chunk-IsWire = (
  (
    omega arith,
    (
      (replicate-IsByte 12 7 (omega arith), omega arith),
      ((three_bytes-IsByte, omega arith), (replicate-IsByte 16 3 (omega arith), omega arith)),
    ),
  ),
  omega arith,
)

receive_all-canvas_example :
    let marks = take_all (only_chunk ∷ only_chunk ∷ []) (replicate (chunk_count 3) false) in
    (r r' : FileReceiver) × (m0 m' : Machine toy_ssl) × (file_receiver toy_ssl output_path 3
        (chunk_count 3)
        zeros
        machine
      ≡ (ok r, m0))
    × (receive_all toy_ssl key (only_chunk ∷ only_chunk ∷ []) (m0, r) ≡ (ok tt, (m', r')))
    × (open_in_out m'.disk output_path ≡ some (canvas marks three_bytes))
    × (is_complete r' ≡ has_all marks)
receive_all-canvas_example =
    receive_all-canvas toy_ssl key three_bytes sendable output_path zeros machine
      (only_chunk ∷ only_chunk ∷ []) refl writable
      (only_chunk-IsGenuine, (only_chunk-IsGenuine, tt))

send_file_chunks-Fits_example :
    (s : Machine toy_ssl × List ChunkPayload) × (send_file_chunks toy_ssl key
        (collect toy_ssl)
        source_path
        (machine, [])
      ≡ (ok tt, s))
    × (length s.1 ≡ chunk_count 3)
    × ((i : ℕ) (c : ChunkPayload) → get_elem? s.1 i ≡ some c → Fits three_bytes i c)
send_file_chunks-Fits_example =
    send_file_chunks-Fits toy_ssl toy_standard toy-Documented key three_bytes source_path machine
      sendable three_bytes-IsByte source_opens
