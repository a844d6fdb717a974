-- ===== src/Tests/MemoryExamples.antt =====
-- core/src/c_api.cpp at a memory with a few blocks, over the libraries of Tests/Toy.antt and
-- Tests/ToyKeys.antt.
use off_drop.Base.{ℕ, zero, suc, ◌≡◌, refl, arith, [], ◌∷◌, length, replicate, length-replicate}
use off_drop.Base.{Option, none, some, ltb, if◌then◌else◌}
use off_drop.Base.Result.{ok}
use off_drop.Base.Action.{◌>>◌}
use off_drop.Protocol.{Bytes}
use off_drop.Crypto.{EncryptedChunk}
use off_drop.Crypto.Seal.{opened}
use off_drop.Files.{bytes_eq}
use off_drop.Memory.{AirdropBuffer, Memory, Malloc, load, load_block, load_string, before_zero}
use off_drop.CApi.{
  airdrop_ok, airdrop_err_crypto, airdrop_encrypt_chunk, airdrop_decrypt_chunk, airdrop_free_buffer,
}
use off_drop.CApi.{airdrop_generate_keypair, airdrop_derive_session_key}
use off_drop.CApi.Handing.{Serves, IsFresh}
use off_drop.CApi.Decrypting.{Given, airdrop_decrypt_chunk-opened, airdrop_decrypt_chunk_unserved}
use off_drop.CApi.Request.{Request, IsRequest}
use off_drop.CApi.RoundTrip.{
  airdrop_decrypt_chunk-airdrop_encrypt_chunk, airdrop_free_buffer-airdrop_encrypt_chunk,
}
use off_drop.CApi.Keys.{Apart, airdrop_derive_session_key_agrees}
use off_drop.Tests.Toy.{toy_ssl, toy_standard, toy-Documented}
use off_drop.Tests.ToyKeys.{toy_pkey, toy_keys, toy_keys-KeyDocumented}

-- Memory that is served holds zeros.
abbrev pub toy_malloc : Malloc
toy_malloc n k = some (replicate n 0)

pub toy_malloc-Serves : Serves toy_malloc
toy_malloc-Serves n k = (replicate n 0, refl, length-replicate n 0)

abbrev no_malloc : Malloc
no_malloc n k = none

abbrev null_buffer : AirdropBuffer
null_buffer = record { data_ptr = none; len = 0 }

-- The key, the text, and a nonce and tags for it.
abbrev key : Bytes
key = replicate 32 9

abbrev text : Bytes
text = 5 ∷ 6 ∷ 7 ∷ []

abbrev blocks : ℕ → Option Bytes
blocks zero = some key
blocks (suc zero) = some text
blocks (suc (suc zero)) = some (replicate 12 7)
blocks (suc (suc (suc zero))) = some (replicate 16 3)
blocks (suc (suc (suc (suc zero)))) = some (replicate 16 4)
blocks (suc (suc (suc (suc (suc a))))) = none

abbrev pub memory : Memory
memory = record { next = 5; blocks = blocks; buffers = λ a. some null_buffer }

memory-IsFresh : IsFresh memory
memory-IsFresh zero h = absurd (omega arith)
memory-IsFresh (suc zero) h = absurd (omega arith)
memory-IsFresh (suc (suc zero)) h = absurd (omega arith)
memory-IsFresh (suc (suc (suc zero))) h = absurd (omega arith)
memory-IsFresh (suc (suc (suc (suc zero)))) h = absurd (omega arith)
memory-IsFresh (suc (suc (suc (suc (suc a))))) h = refl

abbrev request : Request
request = record {
  key_at = 0;
  text_at = some 1;
  nonce_out = 0;
  ciphertext_out = 1;
  tag_out = 2;
  plaintext_out = 3;
}

request-IsRequest : IsRequest memory request key text
unfolding load load_block
request-IsRequest = record {
  key_there = refl;
  text_there = refl;
  nonce_slot = (null_buffer, refl);
  ciphertext_slot = (null_buffer, refl);
  tag_slot = (null_buffer, refl);
  plaintext_slot = (null_buffer, refl);
  nonce_ciphertext = omega arith;
  nonce_tag = omega arith;
  ciphertext_tag = omega arith;
  nonce_plaintext = omega arith;
  ciphertext_plaintext = omega arith;
  tag_plaintext = omega arith;
}

airdrop_decrypt_chunk-airdrop_encrypt_chunk_example :
    (nonce ciphertext tag out : AirdropBuffer) × (w1 w2 : ℕ) × (ma mb : Memory)
    × (airdrop_encrypt_chunk toy_ssl toy_malloc
          (some 0)
          (some 1)
          3
          (some 0)
          (some 1)
          (some 2)
          (0, memory)
        ≡ (ok airdrop_ok, (w1, ma)))
    × (ma.buffers 0 ≡ some nonce)
    × (ma.buffers 1 ≡ some ciphertext)
    × (ma.buffers 2 ≡ some tag)
    × (airdrop_decrypt_chunk toy_ssl toy_malloc
          (some 0)
          nonce.data_ptr
          nonce.len
          ciphertext.data_ptr
          ciphertext.len
          tag.data_ptr
          tag.len
          (some 3)
          (5, ma)
        ≡ (ok airdrop_ok, (w2, mb)))
    × (mb.buffers 3 ≡ some out)
    × (out.len ≡ 3)
    × (load out.data_ptr out.len mb ≡ ok text)
airdrop_decrypt_chunk-airdrop_encrypt_chunk_example =
    airdrop_decrypt_chunk-airdrop_encrypt_chunk toy_ssl toy_standard toy-Documented toy_malloc
      toy_malloc-Serves memory memory-IsFresh request key text (omega arith) request-IsRequest 0 5

airdrop_free_buffer-airdrop_encrypt_chunk_example :
    (nonce ciphertext tag : AirdropBuffer) × (w1 : ℕ) × (ma mb : Memory) × (airdrop_encrypt_chunk
        toy_ssl toy_malloc
        (some 0)
        (some 1)
        3
        (some 0)
        (some 1)
        (some 2)
        (0, memory)
      ≡ (ok airdrop_ok, (w1, ma)))
    × (ma.buffers 0 ≡ some nonce)
    × (ma.buffers 1 ≡ some ciphertext)
    × (ma.buffers 2 ≡ some tag)
    × ((airdrop_free_buffer nonce >> airdrop_free_buffer ciphertext >> airdrop_free_buffer tag) ma
        ≡ (ok tt, mb))
    × ((a : ℕ) → mb.blocks a ≡ memory.blocks a)
airdrop_free_buffer-airdrop_encrypt_chunk_example =
    airdrop_free_buffer-airdrop_encrypt_chunk toy_ssl toy_standard toy-Documented toy_malloc
      toy_malloc-Serves memory memory-IsFresh request key text (omega arith) request-IsRequest 0

-- A chunk in the blocks, with its own tag and with another.
abbrev chunk : EncryptedChunk
chunk = record { nonce = replicate 12 7; ciphertext = text; tag = replicate 16 3 }

abbrev forged : EncryptedChunk
forged = record { nonce = replicate 12 7; ciphertext = text; tag = replicate 16 4 }

chunk-Given : Given memory 0 3 (some 2) (some 1) (some 3) key chunk
unfolding load load_block
chunk-Given = record {
  key_there = refl;
  nonce_there = refl;
  ciphertext_there = refl;
  tag_there = refl;
  slot = (null_buffer, refl);
  small = omega arith;
}

forged-Given : Given memory 0 3 (some 2) (some 1) (some 4) key forged
unfolding load load_block
forged-Given = record {
  key_there = refl;
  nonce_there = refl;
  ciphertext_there = refl;
  tag_there = refl;
  slot = (null_buffer, refl);
  small = omega arith;
}

chunk_opens : opened toy_standard key chunk ≡ ok text
unfolding opened bytes_eq
chunk_opens = refl

airdrop_decrypt_chunk-opened_example :
    (w' : ℕ) × (airdrop_decrypt_chunk toy_ssl toy_malloc
        (some 0)
        (some 2)
        12
        (some 1)
        3
        (some 4)
        16
        (some 3)
        (0, memory)
      ≡ (ok airdrop_err_crypto, (w', memory)))
unfolding opened bytes_eq
airdrop_decrypt_chunk-opened_example =
    airdrop_decrypt_chunk-opened toy_ssl toy_standard toy-Documented toy_malloc toy_malloc-Serves
      memory 0 3 (some 2) (some 1) (some 4) key forged 0 forged-Given

airdrop_decrypt_chunk_unserved_example :
    (w' : ℕ) × (m' : Memory) × (airdrop_decrypt_chunk toy_ssl no_malloc
        (some 0)
        (some 2)
        12
        (some 1)
        3
        (some 3)
        16
        (some 3)
        (0, memory)
      ≡ (ok airdrop_ok, (w', m')))
    × (m'.buffers 3 ≡ some (record { data_ptr = none; len = 3 }))
airdrop_decrypt_chunk_unserved_example =
    airdrop_decrypt_chunk_unserved toy_ssl toy_standard toy-Documented no_malloc memory 0 3 (some 2)
      (some 1) (some 3) key text chunk 0 chunk-Given chunk_opens refl

-- Six blocks for keys, and one with the text "v1".
abbrev key_blocks : ℕ → Option Bytes
key_blocks a = if ltb a 6 then some (replicate 32 0) else some (b'v' ∷ b'1' ∷ 0 ∷ [])

abbrev key_memory : Memory
key_memory = record { next = 7; blocks = key_blocks; buffers = λ a. none }

abbrev room : Bytes
room = replicate 32 0

text_there : load_string (some 6) key_memory ≡ ok (b'v' ∷ b'1' ∷ [])
unfolding load_string before_zero
text_there = refl

numbers-Apart : Apart (0 ∷ 1 ∷ 2 ∷ 3 ∷ 4 ∷ 5 ∷ 6 ∷ [])
numbers-Apart = ground arith

airdrop_derive_session_key_agrees_example :
    (w1 w2 w3 w4 : ℕ) × (m1 m2 m3 m4 : Memory) × (session : Bytes) × (airdrop_generate_keypair
        toy_ssl toy_malloc toy_pkey
        (some 0)
        (some 1)
        (0, key_memory)
      ≡ (ok airdrop_ok, (w1, m1)))
    × (airdrop_generate_keypair toy_ssl toy_malloc toy_pkey (some 2) (some 3) (w1, m1)
        ≡ (ok airdrop_ok, (w2, m2)))
    × (airdrop_derive_session_key toy_ssl toy_malloc toy_pkey
          (some 1)
          (some 2)
          (some 6)
          (some 4)
          (w2, m2)
        ≡ (ok airdrop_ok, (w3, m3)))
    × (airdrop_derive_session_key toy_ssl toy_malloc toy_pkey
          (some 3)
          (some 0)
          (some 6)
          (some 5)
          (w3, m3)
        ≡ (ok airdrop_ok, (w4, m4)))
    × (m4.blocks 4 ≡ some session)
    × (m4.blocks 5 ≡ some session)
    × (length session ≡ 32)
airdrop_derive_session_key_agrees_example =
    airdrop_derive_session_key_agrees toy_ssl toy_malloc toy_pkey toy_keys toy_keys-KeyDocumented
      key_memory 0 1 2 3 4 5 6 (b'v' ∷ b'1' ∷ []) 0
      (
        (room, refl, refl),
        (
          (room, refl, refl),
          (
            (room, refl, refl),
            ((room, refl, refl), ((room, refl, refl), ((room, refl, refl), tt))),
          ),
        ),
      )
      numbers-Apart text_there (omega arith)
