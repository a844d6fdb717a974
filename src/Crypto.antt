-- ===== src/Crypto.antt =====
-- core/include/crypto.hpp and core/src/crypto.cpp over the calls of OpenSSL. A chain of calls is a
-- `do` block: each that fails throws, and the contexts are freed on every way out, which the model
-- leaves out. `std::vector::resize` before a call gives the room that `written` tests.
pub mod Seal
pub mod Digest
pub mod Overflow
pub mod Defined
use off_drop.Base.{ℕ, zero, suc, ◌+◌, ◌%◌, ◌^◌, [], ◌∷◌, ◌++◌, length}
use off_drop.Base.{Option, true, false, ltb, not, ◌==◌, if◌then◌else◌}
use off_drop.Base.Result.{Result, ok, fault, throw_if}
use off_drop.Base.Result.{
  open_ssl, bad_nonce_size, bad_tag_size, authentication_failed, cannot_open_for_hashing,
}
use off_drop.Base.Action.{Action, pure, ◌>>=◌, ◌>>◌, lift, or_throw, settle}
use off_drop.Protocol.{Bytes}
use off_drop.Files.{FileSystem, open_in, Stream, read_block}
use off_drop.OpenSsl.{OpenSsl}

abbrev pub gcm_nonce_size : ℕ
gcm_nonce_size = 12

abbrev pub gcm_tag_size : ℕ
gcm_tag_size = 16

pub record EncryptedChunk : Type 0 where
  pub nonce : Bytes
  pub ciphertext : Bytes
  pub tag : Bytes

-- The buffer of `Sha256File`.
abbrev hash_block : ℕ
hash_block = 2 ^ 16

-- `(int)n`, as a bit pattern.
abbrev int_cast : ℕ → ℕ
int_cast n = n % 2 ^ 32

-- What two calls wrote one behind the other into a vector of `size` bytes. A write past it is
-- undefined.
pub written : ℕ → Bytes → Bytes → Result Bytes
written size out1 out2 = if ltb size (length out1 + length out2) then fault else ok (out1 ++ out2)

module _ (lib : OpenSsl) where
  abbrev try {ℓ} : {A : Type ℓ} → Option A → Action lib.World A
  try r = or_throw open_ssl r

  abbrev call {ℓ} : {A : Type ℓ} → (lib.World → Option A × lib.World) → Action lib.World A
  call f w = settle open_ssl (f w)

  -- `if (!plaintext.empty())` around the update.
  pub encrypt_some : lib.CipherCtx → Bytes → Action lib.World (Bytes × lib.CipherCtx)
  encrypt_some ctx [] = pure ([], ctx)
  encrypt_some ctx (b ∷ bytes) =
      try (lib.encrypt_update ctx (b ∷ bytes) (int_cast (length (b ∷ bytes))))

  pub encrypt_chunk : Bytes → Bytes → Action lib.World EncryptedChunk
  unfolding encrypt_some written
  encrypt_chunk session_key plaintext = do
    nonce ← call (lib.rand_bytes gcm_nonce_size)
    ctx ← call lib.cipher_ctx_new
    with_alg ← try (lib.encrypt_init_alg ctx)
    with_ivlen ← try (lib.set_ivlen with_alg gcm_nonce_size)
    with_key ← try (lib.encrypt_init_key with_ivlen session_key nonce)
    (out1, updated) ← encrypt_some with_key plaintext
    (out2, finished) ← try (lib.encrypt_final updated)
    ciphertext ← lift (written (length plaintext) out1 out2)
    tag ← try (lib.get_tag finished gcm_tag_size)
    pure (record { nonce = nonce; ciphertext = ciphertext; tag = tag })

  decrypt_some : lib.CipherCtx → Bytes → Action lib.World (Bytes × lib.CipherCtx)
  decrypt_some ctx [] = pure ([], ctx)
  decrypt_some ctx (b ∷ bytes) =
      try (lib.decrypt_update ctx (b ∷ bytes) (int_cast (length (b ∷ bytes))))

  pub decrypt_chunk : Bytes → EncryptedChunk → Action lib.World Bytes
  unfolding decrypt_some written
  decrypt_chunk session_key chunk = do
    lift (throw_if (not (length chunk.nonce == gcm_nonce_size)) bad_nonce_size)
    lift (throw_if (not (length chunk.tag == gcm_tag_size)) bad_tag_size)
    ctx ← call lib.cipher_ctx_new
    with_alg ← try (lib.decrypt_init_alg ctx)
    with_ivlen ← try (lib.set_ivlen with_alg gcm_nonce_size)
    with_key ← try (lib.decrypt_init_key with_ivlen session_key chunk.nonce)
    (out1, updated) ← decrypt_some with_key chunk.ciphertext
    with_tag ← try (lib.set_tag updated gcm_tag_size chunk.tag)
    (out2, finished) ← or_throw authentication_failed (lib.decrypt_final with_tag)
    lift (written (length chunk.ciphertext) out1 out2)

  pub sha256_bytes : Bytes → Action lib.World Bytes
  sha256_bytes bytes = try (lib.digest_once bytes)

  -- `if (n > 0)` around the update of the digest.
  digest_some : lib.MdCtx → Bytes → Action lib.World lib.MdCtx
  digest_some ctx [] = pure ctx
  digest_some ctx (b ∷ bytes) = try (lib.digest_update ctx (b ∷ bytes))

  -- The loop `while (f)` of `Sha256File`. Each round takes a block from the stream, so that the
  -- rounds suffice; without fuel it would be `fault`.
  digest_loop : ℕ → Stream → lib.MdCtx → Action lib.World lib.MdCtx
  digest_loop zero f ctx = lift fault
  digest_loop (suc fuel) f ctx = elim f.good [
    | true ↦
        let (block, f') = read_block hash_block f in
        digest_some ctx block >>= λ ctx'. digest_loop fuel f' ctx'
    | false ↦ pure ctx
  ]

  pub sha256_file : FileSystem → Bytes → Action lib.World Bytes
  unfolding digest_loop digest_some
  sha256_file fs path = do
    unread ← or_throw cannot_open_for_hashing (open_in fs path)
    ctx ← call lib.md_ctx_new
    started ← try (lib.digest_init ctx)
    fed ← digest_loop (length unread + 2) (record { unread = unread; good = true }) started
    try (lib.digest_final fed)
