-- ===== src/OpenSsl/Documented.antt =====
-- What OpenSSL documents of the calls that core/src/crypto.cpp makes, where they succeed: AES-256-GCM
-- and SHA-256, each through a context. `view` and `fed` say what a context has been given so far.
use off_drop.Base.{ℕ, ◌^◌, ◌≤◌, ◌<◌, ◌≡◌, ◌≢◌, ◌⊎◌, none, some, [], ◌++◌, length, take, All}
use off_drop.Protocol.{Bytes, IsByte}
use off_drop.OpenSsl.{OpenSsl}

-- The functions that the standards define: GCM's encryption and tag, and SHA-256.
pub record Standard : Type 0 where
  pub encrypt : Bytes → Bytes → Bytes → Bytes
  pub decrypt : Bytes → Bytes → Bytes → Bytes
  pub mac : Bytes → Bytes → Bytes → Bytes
  pub sha256 : Bytes → Bytes
  pub decrypt-encrypt : (key nonce text : Bytes) → decrypt key nonce (encrypt key nonce text) ≡ text
  pub length-encrypt : (key nonce text : Bytes) → length (encrypt key nonce text) ≡ length text
  pub length-decrypt : (key nonce text : Bytes) → length (decrypt key nonce text) ≡ length text
  pub length-mac : (key nonce text : Bytes) → length (mac key nonce text) ≡ 16
  pub encrypt-IsByte :
      (key nonce text : Bytes) → All IsByte text → All IsByte (encrypt key nonce text)
  pub mac-IsByte : (key nonce text : Bytes) → All IsByte (mac key nonce text)

-- How far a cipher context is: whether it has its algorithm, its key and nonce, or the end of the
-- text, and in which direction.
pub data Stage : Type 0 where
  no_algorithm encrypt_chosen encrypt_keyed encrypt_finished decrypt_chosen decrypt_keyed : Stage

-- The algorithm is chosen, and the key is not set.
abbrev pub IsChosen : Stage → Type 0
IsChosen stage = (stage ≡ encrypt_chosen) ⊎ (stage ≡ decrypt_chosen)

-- What a cipher context has been given: its stage, the length of the nonce, the key, the nonce, the
-- ciphertext that went through it, and the tag to compare with.
pub record CipherView : Type 0 where
  pub stage : Stage
  pub ivlen : ℕ
  pub key : Bytes
  pub nonce : Bytes
  pub ciphertext : Bytes
  pub expected_tag : Bytes

abbrev pub keyed : Stage → Bytes → Bytes → CipherView → CipherView
keyed stage k n v = record v { stage = stage; key = k; nonce = n; ciphertext = [] }

-- Calls in the order that the manual gives succeed, and do what the manual says. A call on a context
-- at another stage may do anything.
pub record Documented (lib : OpenSsl) (std : Standard) : Type 0 where
  pub view : lib.CipherCtx → CipherView
  pub fed : lib.MdCtx → Bytes
  pub rand_bytes_lem :
      (n : ℕ) (w : lib.World)
      → (bytes : Bytes) × (w' : lib.World) × (lib.rand_bytes n w ≡ (some bytes, w'))
        × (length bytes ≡ n)
        × All IsByte bytes
  pub cipher_ctx_new_lem :
      (w : lib.World)
      → (c : lib.CipherCtx) × (w' : lib.World) × (lib.cipher_ctx_new w ≡ (some c, w'))
  pub encrypt_init_alg_lem :
      (c : lib.CipherCtx)
      → (c' : lib.CipherCtx) × (lib.encrypt_init_alg c ≡ some c')
        × ((view c').stage ≡ encrypt_chosen)
  pub decrypt_init_alg_lem :
      (c : lib.CipherCtx)
      → (c' : lib.CipherCtx) × (lib.decrypt_init_alg c ≡ some c')
        × ((view c').stage ≡ decrypt_chosen)
  pub set_ivlen_lem :
      (c : lib.CipherCtx) (n : ℕ)
      → 1 ≤ n
      → IsChosen (view c).stage
      → (c' : lib.CipherCtx) × (lib.set_ivlen c n ≡ some c')
        × (view c' ≡ record (view c) { ivlen = n })
  pub encrypt_init_key_lem :
      (c : lib.CipherCtx) (k n : Bytes)
      → (view c).stage ≡ encrypt_chosen
      → length n ≡ (view c).ivlen
      → (c' : lib.CipherCtx) × (lib.encrypt_init_key c k n ≡ some c')
        × (view c' ≡ keyed encrypt_keyed k n (view c))
  pub decrypt_init_key_lem :
      (c : lib.CipherCtx) (k n : Bytes)
      → (view c).stage ≡ decrypt_chosen
      → length n ≡ (view c).ivlen
      → (c' : lib.CipherCtx) × (lib.decrypt_init_key c k n ≡ some c')
        × (view c' ≡ keyed decrypt_keyed k n (view c))
  -- The first update of a context.
  pub encrypt_update_lem :
      (c : lib.CipherCtx) (text : Bytes) (n : ℕ)
      → 1 ≤ n
      → n < 2 ^ 31
      → n ≤ length text
      → (view c).stage ≡ encrypt_keyed
      → (view c).ciphertext ≡ []
      → let out = std.encrypt (view c).key (view c).nonce (take n text) in
        (c' : lib.CipherCtx) × (lib.encrypt_update c text n ≡ some (out, c'))
        × (view c' ≡ record (view c) { ciphertext = out })
  pub decrypt_update_lem :
      (c : lib.CipherCtx) (text : Bytes)
      → length text < 2 ^ 31
      → (view c).stage ≡ decrypt_keyed
      → (view c).ciphertext ≡ []
      → (c' : lib.CipherCtx) × (lib.decrypt_update c text (length text)
          ≡ some (std.decrypt (view c).key (view c).nonce text, c'))
        × (view c' ≡ record (view c) { ciphertext = text })
  -- GCM holds nothing back, so the last call writes nothing.
  pub encrypt_final_lem :
      (c : lib.CipherCtx)
      → (view c).stage ≡ encrypt_keyed
      → (c' : lib.CipherCtx) × (lib.encrypt_final c ≡ some ([], c'))
        × (view c' ≡ record (view c) { stage = encrypt_finished })
  pub get_tag_lem :
      (c : lib.CipherCtx)
      → (view c).stage ≡ encrypt_finished
      → lib.get_tag c 16 ≡ some (std.mac (view c).key (view c).nonce (view c).ciphertext)
  pub set_tag_lem :
      (c : lib.CipherCtx) (tag : Bytes)
      → length tag ≡ 16
      → (view c).stage ≡ decrypt_keyed
      → (c' : lib.CipherCtx) × (lib.set_tag c 16 tag ≡ some c')
        × (view c' ≡ record (view c) { expected_tag = tag })
  -- The last call of a decryption compares the tags.
  pub decrypt_final_same :
      (c : lib.CipherCtx)
      → (view c).stage ≡ decrypt_keyed
      → (view c).expected_tag ≡ std.mac (view c).key (view c).nonce (view c).ciphertext
      → (c' : lib.CipherCtx) × (lib.decrypt_final c ≡ some ([], c'))
  pub decrypt_final_other :
      (c : lib.CipherCtx)
      → (view c).stage ≡ decrypt_keyed
      → (view c).expected_tag ≢ std.mac (view c).key (view c).nonce (view c).ciphertext
      → lib.decrypt_final c ≡ none
  pub digest_once_lem : (data' : Bytes) → lib.digest_once data' ≡ some (std.sha256 data')
  pub md_ctx_new_lem :
      (w : lib.World) → (c : lib.MdCtx) × (w' : lib.World) × (lib.md_ctx_new w ≡ (some c, w'))
  pub digest_init_lem :
      (c : lib.MdCtx) → (c' : lib.MdCtx) × (lib.digest_init c ≡ some c') × (fed c' ≡ [])
  pub digest_update_lem :
      (c : lib.MdCtx) (part : Bytes)
      → (c' : lib.MdCtx) × (lib.digest_update c part ≡ some c') × (fed c' ≡ fed c ++ part)
  pub digest_final_lem : (c : lib.MdCtx) → lib.digest_final c ≡ some (std.sha256 (fed c))
