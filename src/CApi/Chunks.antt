-- ===== src/CApi/Chunks.antt =====
-- `airdrop_encrypt_chunk` and `airdrop_decrypt_chunk` of core/src/c_api.cpp, over a library that
-- keeps to its manual and a `malloc` that serves.
use off_drop.Base.{ℕ, ◌^◌, ◌<◌, ◌≡◌, ◌≢◌, refl, ◌∙◌, length, some}
use off_drop.Base.Result.{ok}
use off_drop.Protocol.{Bytes}
use off_drop.OpenSsl.{OpenSsl}
use off_drop.OpenSsl.Documented.{Standard, Documented}
use off_drop.Crypto.{EncryptedChunk}
use off_drop.Crypto.Seal.{sealed, encrypt_chunk-sealed}
use off_drop.Memory.{Pointer, AirdropBuffer, Memory, Malloc, load}
use off_drop.Memory.Writes.{write_other}
use off_drop.CApi.{encrypt_body, airdrop_encrypt_chunk, airdrop_ok, guarded, caught}
use off_drop.CApi.Handing.{Serves, buffer_of, handed, hand_out_lem}

-- The memory with the three parts of a chunk handed out.
abbrev pub with_chunk : Memory → ℕ → ℕ → ℕ → EncryptedChunk → Memory
with_chunk m on oc ot chunk =
    handed (handed (handed m on chunk.nonce) oc chunk.ciphertext) ot chunk.tag

module _ (lib : OpenSsl) (std : Standard) (doc : Documented lib std) (malloc : Malloc)
    (serves : Serves malloc) where
  -- The caller's structures for the three parts.
  module _ (m : Memory) (on oc ot : ℕ) (old_nonce old_ciphertext old_tag : AirdropBuffer)
      (at_nonce : m.buffers on ≡ some old_nonce)
      (at_ciphertext : m.buffers oc ≡ some old_ciphertext) (at_tag : m.buffers ot ≡ some old_tag)
      (nonce_ciphertext : on ≢ oc) (nonce_tag : on ≢ ot) (ciphertext_tag : oc ≢ ot) where
    -- The body, where the three structures are there and are different.
    encrypt_body_lem :
        (k p : Pointer) (key text : Bytes) (w : lib.World)
        → load k 32 m ≡ ok key
        → load p (length text) m ≡ ok text
        → length text < 2 ^ 31
        → (nonce : Bytes) × (w' : lib.World) × (length nonce ≡ 12)
          × (encrypt_body lib malloc k p (length text) (some on) (some oc) (some ot) (w, m)
              ≡ (ok tt, (w', with_chunk m on oc ot (sealed std key nonce text))))
    unfolding encrypt_body
    encrypt_body_lem k p key text w key_there text_there small =
        let (nonce, w', size, _, encrypted) = encrypt_chunk-sealed lib std doc key text w small in
        let c = sealed std key nonce text in
        let m1 = handed m on c.nonce in
        let m2 = handed m1 oc c.ciphertext in
        let first = hand_out_lem malloc serves lib w' m on old_nonce c.nonce at_nonce in
        let oc_there =
          write_other m.buffers on oc (some (buffer_of m c.nonce)) nonce_ciphertext
          ∙ at_ciphertext in
        let second = hand_out_lem malloc serves lib w' m1 oc old_ciphertext c.ciphertext oc_there in
        let ot_there =
          write_other m1.buffers oc ot (some (buffer_of m1 c.ciphertext)) ciphertext_tag
          ∙ write_other m.buffers on ot (some (buffer_of m c.nonce)) nonce_tag
          ∙ at_tag in
        let third = hand_out_lem malloc serves lib w' m2 ot old_tag c.tag ot_there in
        (nonce, w', size, rw (key_there, text_there, encrypted, first, second, third) refl)

    -- The call, with a key that is not null.
    pub airdrop_encrypt_chunk_lem :
        (k : ℕ) (p : Pointer) (key text : Bytes) (w : lib.World)
        → load (some k) 32 m ≡ ok key
        → load p (length text) m ≡ ok text
        → length text < 2 ^ 31
        → (nonce : Bytes) × (w' : lib.World) × (length nonce ≡ 12)
          × (airdrop_encrypt_chunk lib malloc
                (some k)
                p
                (length text)
                (some on)
                (some oc)
                (some ot)
                (w, m)
              ≡ (ok airdrop_ok, (w', with_chunk m on oc ot (sealed std key nonce text))))
    unfolding airdrop_encrypt_chunk guarded caught
    airdrop_encrypt_chunk_lem k p key text w key_there text_there small =
        let (nonce, w', size, done) =
          encrypt_body_lem (some k) p key text w key_there text_there small in
        (nonce, w', size, rw done refl)
