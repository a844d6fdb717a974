-- ===== src/CApi/Request.antt =====
-- What a caller gives to `airdrop_encrypt_chunk` and `airdrop_decrypt_chunk` of core/src/c_api.cpp.
use off_drop.Base.{ℕ, ◌≡◌, ◌≢◌, length, some}
use off_drop.Base.Result.{ok}
use off_drop.Protocol.{Bytes}
use off_drop.Memory.{Pointer, AirdropBuffer, Memory, load}

-- What a caller gives: the key and the text in its blocks, and four structures of its own.
pub record Request : Type 0 where
  pub key_at : ℕ
  pub text_at : Pointer
  pub nonce_out : ℕ
  pub ciphertext_out : ℕ
  pub tag_out : ℕ
  pub plaintext_out : ℕ

pub record IsRequest (m : Memory) (q : Request) (key text : Bytes) : Type 0 where
  pub key_there : load (some q.key_at) 32 m ≡ ok key
  pub text_there : load q.text_at (length text) m ≡ ok text
  pub nonce_slot : (old : AirdropBuffer) × (m.buffers q.nonce_out ≡ some old)
  pub ciphertext_slot : (old : AirdropBuffer) × (m.buffers q.ciphertext_out ≡ some old)
  pub tag_slot : (old : AirdropBuffer) × (m.buffers q.tag_out ≡ some old)
  pub plaintext_slot : (old : AirdropBuffer) × (m.buffers q.plaintext_out ≡ some old)
  pub nonce_ciphertext : q.nonce_out ≢ q.ciphertext_out
  pub nonce_tag : q.nonce_out ≢ q.tag_out
  pub ciphertext_tag : q.ciphertext_out ≢ q.tag_out
  pub nonce_plaintext : q.nonce_out ≢ q.plaintext_out
  pub ciphertext_plaintext : q.ciphertext_out ≢ q.plaintext_out
  pub tag_plaintext : q.tag_out ≢ q.plaintext_out
