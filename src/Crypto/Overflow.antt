-- ===== src/Crypto/Overflow.antt =====
-- `EncryptChunk` of core/src/crypto.cpp on a text whose length is no `int`.
use off_drop.Base.{ℕ, ◌+◌, ◌^◌, ◌≤◌, ◌<◌, ◌≡◌, refl, ◌∙◌, arith, length, length-take, take}
use off_drop.Base.Result.{ok}
use off_drop.Protocol.{Bytes}
use off_drop.OpenSsl.{OpenSsl}
use off_drop.OpenSsl.Documented.{Standard, Documented}
use off_drop.Crypto.{EncryptedChunk, int_cast, encrypt_chunk, decrypt_chunk}
use off_drop.Crypto.Seal.{
  sealed, encrypt_some_front, encrypt_chunk_front, decrypt_chunk-opened, opened-sealed,
}

module _ (lib : OpenSsl) (std : Standard) (doc : Documented lib std) where
  -- Of a text that is longer than 4 GB and below 6 GB, `encrypt_chunk` returns a chunk of its first
  -- bytes only, as many as its length exceeds 2^32 by, without an exception; `decrypt_chunk`
  -- accepts the chunk and returns these bytes. The key is the same, and the library keeps to its
  -- manual.
  pub encrypt_chunk_overflow :
      (key text : Bytes) (extra : ℕ) (w v : lib.World)
      → length text ≡ 2 ^ 32 + extra
      → 1 ≤ extra
      → extra < 2 ^ 31
      → (chunk : EncryptedChunk) × (w' : lib.World) × (v' : lib.World) × (encrypt_chunk lib key text
            w
          ≡ (ok chunk, w'))
        × (length chunk.ciphertext ≡ extra)
        × (decrypt_chunk lib key chunk v ≡ (ok (take extra text), v'))
  encrypt_chunk_overflow key text extra w v long some_bytes small =
      let front = take extra text in
      let size = length-take extra text (omega (arith, long)) in
      let as_int : int_cast (length text) ≡ extra = omega (arith, long, small) in
      let (nonce, w', n12, _, done) =
        encrypt_chunk_front lib std doc key text front w (omega (arith, size, long)) (λ c u n t e.
          encrypt_some_front lib std doc c u key n t text extra as_int some_bytes small
            (omega (arith, long)) e) in
      let wide = std.length-encrypt key nonce front in
      let (v', back) =
        decrypt_chunk-opened lib std doc key (sealed std key nonce front) v
          (omega (arith, wide, size, small)) in
      (
        sealed std key nonce front,
        w',
        v',
        done,
        wide ∙ size,
        back ∙ rw (opened-sealed lib std doc key nonce front n12) refl,
      )
