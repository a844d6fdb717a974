-- ===== src/Tests/ReindexExamples.antt =====
-- core/src/chunking.cpp with an index that was changed: at a file of two chunks, over the library of
-- Tests/Toy.antt.
use off_drop.Base.{
  ℕ, ◌*◌, ◌+◌, ◌<◌, ◌≡◌, ◌≢◌, ◌∙◌, refl, ap, arith, ◌++◌, length, get_elem?, replicate, take, drop,
}
use off_drop.Base.{true, some, drop-append, length-append, length-replicate, take_of_length-le}
use off_drop.Base.Result.{ok}
use off_drop.Protocol.{Bytes, ChunkPayload, chunk_size}
use off_drop.Files.{bytes_eq, open_in, open_in_out}
use off_drop.Crypto.Seal.{opened}
use off_drop.Chunking.{
  Machine, FileReceiver, chunk_count, to_encrypted, file_receiver, receive_chunk,
}
use off_drop.Chunking.Blocks.{block, IsSendable, chunk_count-div}
use off_drop.Chunking.Opening.{file_receiver-IsReceiving}
use off_drop.Chunking.Receiving.{IsReceiving}
use off_drop.Chunking.Reindex.{receive_chunk_reindexed}
use off_drop.Tests.Toy.{toy_ssl, toy_standard, toy-Documented}
use off_drop.Tests.FileData.{key, output_path, three_bytes, machine, writable}
use off_drop.Tests.FileExamples.{only_chunk}

-- A whole chunk of nines, and three bytes more.
abbrev two_chunks : Bytes
two_chunks = replicate chunk_size 9 ++ three_bytes

length-two_chunks : length two_chunks ≡ chunk_size + 3
length-two_chunks = omega (
  arith,
  length-append (replicate chunk_size 9) three_bytes,
  length-replicate {A = ℕ} chunk_size 9,
)

two_chunks-IsSendable : IsSendable two_chunks
two_chunks-IsSendable = omega (arith, length-two_chunks)

drop-append_at : (xs ys : Bytes) (n : ℕ) → length xs ≡ n → drop n (xs ++ ys) ≡ ys
drop-append_at xs ys n e = rw (← e) (drop-append xs ys)

second_block : block two_chunks 1 ≡ three_bytes
unfolding block
second_block =
    let nines = replicate {A = ℕ} chunk_size 9 in
    let rest : drop (1 * chunk_size) two_chunks ≡ three_bytes =
      drop-append_at nines three_bytes (1 * chunk_size) (length-replicate {A = ℕ} chunk_size 9) in
    ap (take chunk_size) rest ∙ take_of_length-le chunk_size three_bytes (omega arith)

-- The chunk of the three bytes, as it is sent.
abbrev second_chunk : ChunkPayload
second_chunk = record only_chunk { chunk_index = 1 }

second_chunk_opens : opened toy_standard key (to_encrypted second_chunk) ≡ ok (block two_chunks 1)
unfolding opened bytes_eq
second_chunk_opens = rw second_block refl

-- A new receiver for the file, with its machine and the output file.
abbrev two_receiver :
    (r : FileReceiver) × (m' : Machine toy_ssl) × (d : Bytes) × (file_receiver toy_ssl output_path
        (length two_chunks)
        (chunk_count (length two_chunks))
        three_bytes
        machine
      ≡ (ok r, m'))
    × IsReceiving two_chunks m'.disk r d
    × (r.output_path ≡ output_path)
    × (r.expected_sha256 ≡ three_bytes)
    × ((i : ℕ) → get_elem? r.received_mask i ≢ some true)
    × ((other : Bytes) → output_path ≢ other → open_in m'.disk other ≡ open_in machine.disk other)
two_receiver =
    file_receiver-IsReceiving toy_ssl two_chunks output_path three_bytes machine
      two_chunks-IsSendable refl writable

-- The second chunk comes as the first one, and is written over the nines' place.
receive_chunk_reindexed_example :
    let file = two_chunks in
    (m' : Machine toy_ssl) × (r' : FileReceiver) × (d' : Bytes) × (receive_chunk toy_ssl key
        (record second_chunk { chunk_index = 0 })
        (two_receiver.1, two_receiver.0)
      ≡ (ok tt, (m', r')))
    × (get_elem? r'.received_mask 0 ≡ some true)
    × (open_in_out m'.disk r'.output_path ≡ some d')
    × ((k : ℕ)
        → k < length (block file 1)
        → get_elem? d' (0 * chunk_size + k) ≡ get_elem? (block file 1) k)
receive_chunk_reindexed_example =
    receive_chunk_reindexed toy_ssl toy_standard toy-Documented key two_chunks two_chunks-IsSendable
      1 0 second_chunk two_receiver.1 two_receiver.0 two_receiver.2 two_receiver.4
      second_chunk_opens (omega arith)
      (omega (arith, chunk_count-div (length two_chunks) two_chunks-IsSendable, length-two_chunks))
      (omega (arith, ap (λ (bytes : Bytes). length bytes) second_block, length-two_chunks))
