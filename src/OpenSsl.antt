-- ===== src/OpenSsl.antt =====
-- The calls of OpenSSL's libcrypto that core/src/crypto.cpp makes. The library is not part of the
-- repository: its calls are the fields of a record, on which the model of crypto.cpp depends.
-- `none` is the return value on which crypto.cpp throws. A context is a value that a call returns
-- changed, and `World` is what the library keeps for itself, its random generator among it.
pub mod Documented
use off_drop.Base.{ℕ, Option}
use off_drop.Protocol.{Bytes}

pub record OpenSsl : Type 1 where
  pub World : Type 0
  pub CipherCtx : Type 0
  pub MdCtx : Type 0
  -- `RAND_bytes` for so many bytes.
  pub rand_bytes : ℕ → World → Option Bytes × World
  pub cipher_ctx_new : World → Option CipherCtx × World
  -- `EVP_EncryptInit_ex` with the algorithm alone, then with the key and the nonce alone.
  pub encrypt_init_alg : CipherCtx → Option CipherCtx
  pub encrypt_init_key : CipherCtx → Bytes → Bytes → Option CipherCtx
  pub decrypt_init_alg : CipherCtx → Option CipherCtx
  pub decrypt_init_key : CipherCtx → Bytes → Bytes → Option CipherCtx
  -- `EVP_CIPHER_CTX_ctrl` with `SET_IVLEN`, `GET_TAG` and `SET_TAG`.
  pub set_ivlen : CipherCtx → ℕ → Option CipherCtx
  pub get_tag : CipherCtx → ℕ → Option Bytes
  pub set_tag : CipherCtx → ℕ → Bytes → Option CipherCtx
  -- The input and its length as an `int`, of 32 bits. The result holds the bytes that were written.
  pub encrypt_update : CipherCtx → Bytes → ℕ → Option (Bytes × CipherCtx)
  pub encrypt_final : CipherCtx → Option (Bytes × CipherCtx)
  pub decrypt_update : CipherCtx → Bytes → ℕ → Option (Bytes × CipherCtx)
  pub decrypt_final : CipherCtx → Option (Bytes × CipherCtx)
  -- `EVP_Digest` and `EVP_DigestInit_ex` with SHA-256.
  pub digest_once : Bytes → Option Bytes
  pub md_ctx_new : World → Option MdCtx × World
  pub digest_init : MdCtx → Option MdCtx
  pub digest_update : MdCtx → Bytes → Option MdCtx
  pub digest_final : MdCtx → Option Bytes
