-- ===== src/Crypto/Defined.antt =====
-- core/src/crypto.cpp over any library: whatever its calls return, no function of crypto.cpp runs
-- into undefined behaviour, as long as a cipher writes no more than it was given.
use off_drop.Base.{
  ℕ, zero, suc, true, take, drop, leb, leb→le, length-drop, Bool-cases, inl, inr, ◌+◌, ◌≤◌, ◌≡◌,
  arith, [], ◌∷◌, length, some, le→ltb, ap, not, ◌==◌,
}
use off_drop.Base.Result.{
  open_ssl, bad_nonce_size, bad_tag_size, authentication_failed, cannot_open_for_hashing,
}
use off_drop.Base.Ends.{
  Ends, returns, continue-Ends, weaken-Ends, or_throw-Ends, settle-Ends, throw_if-Ends,
}
use off_drop.Protocol.{Bytes}
use off_drop.Files.{FileSystem, open_in, read_block}
use off_drop.OpenSsl.{OpenSsl}
use off_drop.Crypto.{
  EncryptedChunk, encrypt_chunk, decrypt_chunk, encrypt_some, decrypt_some, written, int_cast,
  digest_some, digest_loop, sha256_file, hash_block,
}

-- An update writes at most as many bytes as it reads, and the last call of GCM writes none.
pub record WritesWithin (lib : OpenSsl) : Type 0 where
  pub encrypt_within :
      (c c' : lib.CipherCtx) (text out : Bytes) (n : ℕ)
      → lib.encrypt_update c text n ≡ some (out, c')
      → length out ≤ length text
  pub decrypt_within :
      (c c' : lib.CipherCtx) (text out : Bytes) (n : ℕ)
      → lib.decrypt_update c text n ≡ some (out, c')
      → length out ≤ length text
  pub encrypt_last :
      (c c' : lib.CipherCtx) (out : Bytes) → lib.encrypt_final c ≡ some (out, c') → out ≡ []
  pub decrypt_last :
      (c c' : lib.CipherCtx) (out : Bytes) → lib.decrypt_final c ≡ some (out, c') → out ≡ []

written-Ends :
    {S : Type 0} (n : ℕ) (out1 out2 : Bytes) (s : S)
    → length out1 + length out2 ≤ n
    → Ends (λ out t. Unit {0}) (written n out1 out2, s)
unfolding written
written-Ends n out1 out2 s fits = rw (le→ltb n (length out1 + length out2) fits) (returns _ s tt)

module _ (lib : OpenSsl) (within : WritesWithin lib) where
  encrypt_some-Ends :
      (c : lib.CipherCtx) (text : Bytes) (w : lib.World)
      → Ends (λ r t. length r.0 ≤ length text) (encrypt_some lib c text w)
  unfolding encrypt_some
  encrypt_some-Ends c [] w = returns ([], c) w (omega arith)
  encrypt_some-Ends c (b ∷ bytes) w =
      let n = int_cast (length (b ∷ bytes)) in
      weaken-Ends (or_throw-Ends open_ssl (lib.encrypt_update c (b ∷ bytes) n) w)
        λ (out, c') t wrote. within.encrypt_within c c' (b ∷ bytes) out n wrote

  decrypt_some-Ends :
      (c : lib.CipherCtx) (text : Bytes) (w : lib.World)
      → Ends (λ r t. length r.0 ≤ length text) (decrypt_some lib c text w)
  unfolding decrypt_some
  decrypt_some-Ends c [] w = returns ([], c) w (omega arith)
  decrypt_some-Ends c (b ∷ bytes) w =
      let n = int_cast (length (b ∷ bytes)) in
      weaken-Ends (or_throw-Ends open_ssl (lib.decrypt_update c (b ∷ bytes) n) w)
        λ (out, c') t wrote. within.decrypt_within c c' (b ∷ bytes) out n wrote

  -- `encrypt_chunk` returns a chunk or throws, whatever the library's calls return.
  pub encrypt_chunk-Ends :
      (key text : Bytes) (w : lib.World) → Ends (λ c t. Unit {0}) (encrypt_chunk lib key text w)
  unfolding encrypt_chunk
  encrypt_chunk-Ends key text w =
      continue-Ends (settle-Ends open_ssl (lib.rand_bytes 12 w)) λ nonce w1 _.
        continue-Ends (settle-Ends open_ssl (lib.cipher_ctx_new w1)) λ ctx w2 _.
          continue-Ends (or_throw-Ends open_ssl (lib.encrypt_init_alg ctx) w2) λ c1 w3 _.
            continue-Ends (or_throw-Ends open_ssl (lib.set_ivlen c1 12) w3) λ c2 w4 _.
              continue-Ends (or_throw-Ends open_ssl (lib.encrypt_init_key c2 key nonce) w4)
                λ c3 w5 _. continue-Ends (encrypt_some-Ends c3 text w5) λ (out1, c4) w6 wrote.
                  continue-Ends (or_throw-Ends open_ssl (lib.encrypt_final c4) w6)
                    λ (out2, c5) w7 last.
                      let none_more = ap length (within.encrypt_last c4 c5 out2 last) in
                      continue-Ends
                        (written-Ends (length text) out1 out2 w7 (omega (arith, none_more)))
                        λ ciphertext w8 _.
                          continue-Ends (or_throw-Ends open_ssl (lib.get_tag c5 16) w8) λ tag w9 _.
                            returns (record { nonce = nonce; ciphertext = ciphertext; tag = tag })
                              w9 tt

  -- `decrypt_chunk` returns a text or throws, whatever the chunk and whatever the library's calls
  -- return.
  pub decrypt_chunk-Ends :
      (key : Bytes) (chunk : EncryptedChunk) (w : lib.World)
      → Ends (λ text t. Unit {0}) (decrypt_chunk lib key chunk w)
  unfolding decrypt_chunk
  decrypt_chunk-Ends key chunk w =
      continue-Ends (throw_if-Ends (not (length chunk.nonce == 12)) bad_nonce_size w) λ _ w0 _.
        continue-Ends (throw_if-Ends (not (length chunk.tag == 16)) bad_tag_size w0) λ _ w1 _.
          continue-Ends (settle-Ends open_ssl (lib.cipher_ctx_new w1)) λ ctx w2 _.
            continue-Ends (or_throw-Ends open_ssl (lib.decrypt_init_alg ctx) w2) λ c1 w3 _.
              continue-Ends (or_throw-Ends open_ssl (lib.set_ivlen c1 12) w3) λ c2 w4 _.
                continue-Ends (or_throw-Ends open_ssl (lib.decrypt_init_key c2 key chunk.nonce) w4)
                  λ c3 w5 _.
                    continue-Ends (decrypt_some-Ends c3 chunk.ciphertext w5) λ (out1, c4) w6 wrote.
                      continue-Ends (or_throw-Ends open_ssl (lib.set_tag c4 16 chunk.tag) w6)
                        λ c5 w7 _.
                          continue-Ends
                            (or_throw-Ends authentication_failed (lib.decrypt_final c5) w7)
                            λ (out2, c6) w8 last.
                              let none_more = ap length (within.decrypt_last c5 c6 out2 last) in
                              written-Ends (length chunk.ciphertext) out1 out2 w8
                                (omega (arith, none_more))

-- The digest of a file, over any library.
module _ (lib : OpenSsl) where
  digest_some-Ends :
      (c : lib.MdCtx) (block : Bytes) (w : lib.World)
      → Ends (λ c' t. Unit {0}) (digest_some lib c block w)
  unfolding digest_some
  digest_some-Ends c [] w = returns c w tt
  digest_some-Ends c (b ∷ bytes) w =
      weaken-Ends (or_throw-Ends open_ssl (lib.digest_update c (b ∷ bytes)) w) λ c' t _. tt

  digest_loop-Ends :
      (fuel : ℕ) (u : Bytes) (c : lib.MdCtx) (w : lib.World)
      → length u + 2 ≤ fuel
      → Ends (λ c' t. Unit {0}) (digest_loop lib fuel (record { unread = u; good = true }) c w)
  unfolding digest_loop read_block
  digest_loop-Ends zero u c w h = absurd (omega arith)
  digest_loop-Ends (suc zero) u c w h = absurd (omega arith)
  digest_loop-Ends (suc (suc fuel)) u c w h =
      continue-Ends (digest_some-Ends c (take hash_block u) w) λ c' t _.
        elim (Bool-cases (leb hash_block (length u))) [
          | inl long ↦ rw long (
              digest_loop-Ends (suc fuel) (drop hash_block u) c' t
                (omega (arith, leb→le _ _ long, length-drop hash_block u)))
          | inr short ↦ rw short (returns c' t tt)
        ]

  -- `sha256_file` ends for every file and every library: its rounds suffice, and it returns a
  -- digest or throws.
  pub sha256_file-Ends :
      (fs : FileSystem) (path : Bytes) (w : lib.World)
      → Ends (λ digest t. Unit {0}) (sha256_file lib fs path w)
  unfolding sha256_file
  sha256_file-Ends fs path w =
      continue-Ends (or_throw-Ends cannot_open_for_hashing (open_in fs path) w) λ unread w1 _.
        continue-Ends (settle-Ends open_ssl (lib.md_ctx_new w1)) λ ctx w2 _.
          continue-Ends (or_throw-Ends open_ssl (lib.digest_init ctx) w2) λ started w3 _.
            continue-Ends (digest_loop-Ends (length unread + 2) unread started w3 (omega arith))
              λ fed w4 _.
                weaken-Ends (or_throw-Ends open_ssl (lib.digest_final fed) w4) λ digest t _. tt
