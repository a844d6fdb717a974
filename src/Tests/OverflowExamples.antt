-- ===== src/Tests/OverflowExamples.antt =====
-- core/src/crypto.cpp at a text of 2^32 + 3 bytes, over the library of Tests/Toy.antt.
use off_drop.Base.{ℕ, ◌+◌, ◌^◌, ◌≡◌, arith, length, length-replicate, replicate, take}
use off_drop.Base.Result.{ok}
use off_drop.Protocol.{Bytes}
use off_drop.Crypto.{EncryptedChunk, encrypt_chunk, decrypt_chunk}
use off_drop.Crypto.Overflow.{encrypt_chunk_overflow}
use off_drop.Tests.Toy.{toy_ssl, toy_standard, toy-Documented}
use off_drop.Tests.FileData.{key}

-- A file in memory of a little more than 4 GB.
abbrev giant : ℕ → Bytes
giant n = replicate n 7

encrypt_chunk_overflow_example :
    (chunk : EncryptedChunk) × (w' v' : ℕ) × (encrypt_chunk toy_ssl key (giant (2 ^ 32 + 3)) 0
      ≡ (ok chunk, w'))
    × (length chunk.ciphertext ≡ 3)
    × (decrypt_chunk toy_ssl key chunk 5 ≡ (ok (take 3 (giant (2 ^ 32 + 3))), v'))
encrypt_chunk_overflow_example =
    encrypt_chunk_overflow toy_ssl toy_standard toy-Documented key (giant (2 ^ 32 + 3)) 3 0 5
      (length-replicate {A = ℕ} (2 ^ 32 + 3) 7) (omega arith) (omega arith)
