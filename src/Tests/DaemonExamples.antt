-- ===== src/Tests/DaemonExamples.antt =====
-- cmd/daemon/bridge.go and cmd/daemon/main.go at a memory with nothing in it, over the libraries of
-- Tests/Toy.antt and Tests/ToyKeys.antt.
use off_drop.Base.{
  true, false, length, ℕ, ◌≡◌, refl, arith, [], ◌∷◌, none, some, replicate, length-replicate,
}
use off_drop.Base.Result.{ok, err, index_out_of_range}
use off_drop.Protocol.{Bytes}
use off_drop.Crypto.{EncryptedChunk}
use off_drop.Crypto.Seal.{opened}
use off_drop.Files.{FileSystem, open_in}
use off_drop.Memory.{Memory}
use off_drop.CApi.Handing.{IsFresh}
use off_drop.Daemon.{value, encrypt_chunk, decrypt_chunk}
use off_drop.Daemon.Decrypting.{answer}
use off_drop.Daemon.Locals.{Restores, Leaves}
use off_drop.Daemon.Main.{main}
use off_drop.Daemon.Opening.{HasParts, decrypt_chunk-answer}
use off_drop.Daemon.Runs.{decrypt_chunk_gives_back, decrypt_chunk_empty_text, main_runs}
use off_drop.Daemon.Strings.{has_no_zero-IsText}
use off_drop.Tests.Toy.{toy_ssl, toy_standard, toy-Documented}
use off_drop.Tests.ToyKeys.{toy_pkey, toy_keys, toy_keys-KeyDocumented}
use off_drop.Tests.MemoryExamples.{toy_malloc, toy_malloc-Serves}

abbrev nothing : Memory
nothing = record { next = 0; blocks = λ a. none; buffers = λ a. none }

nothing-IsFresh : IsFresh nothing
nothing-IsFresh a h = refl

abbrev key : Bytes
key = replicate 32 9

abbrev text : Bytes
text = 5 ∷ 6 ∷ 7 ∷ []

-- The daemon's own file has 32 bytes here.
abbrev binary : Bytes
binary = replicate 32 1

abbrev self_path : Bytes
self_path = b'/' ∷ b'd' ∷ []

abbrev disk : FileSystem
disk = record {
  content = λ path. some binary;
  can_read = λ path. true;
  can_write = λ path. false;
  takes = λ path file at bytes. 0;
}

binary_size :
    (file : Bytes) → open_in disk self_path ≡ some file → length (toy_standard.sha256 file) ≡ 32
unfolding open_in
binary_size file e = cc (e, length-replicate {A = ℕ} 32 1)

decrypt_chunk_gives_back_example :
    (c : EncryptedChunk) × (w' x' : ℕ) × (m' m'' : Memory) × (encrypt_chunk toy_ssl toy_malloc key
        text
        (0, nothing)
      ≡ (ok (value c), (w', m')))
    × (decrypt_chunk toy_ssl toy_malloc key c (5, m') ≡ (ok (value text), (x', m'')))
    × ((a : ℕ) → m'.blocks a ≡ none)
    × ((a : ℕ) → m''.blocks a ≡ none)
decrypt_chunk_gives_back_example =
    decrypt_chunk_gives_back toy_ssl toy_standard toy-Documented toy_malloc toy_malloc-Serves key
      text nothing 0 5 nothing-IsFresh (length-replicate {A = ℕ} 32 9) (omega arith) (omega arith)

decrypt_chunk_empty_text_example :
    (c : EncryptedChunk) × (w' : ℕ) × (m' m'' : Memory) × (lost : ℕ) × (encrypt_chunk toy_ssl
        toy_malloc key []
        (0, nothing)
      ≡ (ok (value c), (w', m')))
    × (nothing.blocks lost ≡ none)
    × (m'.blocks lost ≡ some [])
    × (decrypt_chunk toy_ssl toy_malloc key c (5, m') ≡ (err index_out_of_range, (5, m'')))
decrypt_chunk_empty_text_example =
    decrypt_chunk_empty_text toy_ssl toy_standard toy-Documented toy_malloc toy_malloc-Serves key
      nothing 0 5 nothing-IsFresh (length-replicate {A = ℕ} 32 9)

-- A chunk with a forged tag.
abbrev forged : EncryptedChunk
forged = record { nonce = replicate 12 7; ciphertext = text; tag = replicate 16 4 }

forged-HasParts : HasParts forged
forged-HasParts = record {
  nonce = omega arith;
  ciphertext = omega arith;
  tag = omega arith;
  small = omega arith;
}

decrypt_chunk-answer_example :
    (w' : ℕ) × Leaves ℕ Restores
      (decrypt_chunk toy_ssl toy_malloc key forged (0, nothing))
      nothing
      (answer (opened toy_standard key forged))
      w'
decrypt_chunk-answer_example =
    decrypt_chunk-answer toy_ssl toy_standard toy-Documented toy_malloc toy_malloc-Serves nothing
      key forged nothing-IsFresh (length-replicate {A = ℕ} 32 9) 0 forged-HasParts

main_runs_example :
    (w' : ℕ) × (m' : Memory) × (main toy_ssl toy_malloc toy_pkey disk self_path (0, nothing)
      ≡ (ok tt, (w', m')))
    × ((a : ℕ) → m'.blocks a ≡ none)
main_runs_example =
    main_runs toy_ssl toy_standard toy-Documented toy_malloc toy_malloc-Serves toy_pkey toy_keys
      toy_keys-KeyDocumented disk self_path nothing 0 nothing-IsFresh
      (has_no_zero-IsText self_path refl) binary_size
