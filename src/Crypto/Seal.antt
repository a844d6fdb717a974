-- ===== src/Crypto/Seal.antt =====
-- `EncryptChunk` and `DecryptChunk` of core/src/crypto.cpp over a library that keeps to its manual.
use off_drop.Base.{ℕ, ◌+◌, ◌^◌, ◌≤◌, ◌<◌, ◌≡◌, refl, sym, ap, ◌∙◌, subst, arith}
use off_drop.Base.{[], ◌∷◌, length, All, take, take_of_length-le, append-nil, nil_of_length}
use off_drop.Base.{◌==◌, not, eq→==, ne→==, le→ltb, Bool-cases, inl, inr, if◌then◌else◌}
use off_drop.Base.Result.{Result, ok, err, bad_nonce_size, bad_tag_size, authentication_failed}
use off_drop.Protocol.{Bytes, IsByte}
use off_drop.Files.{bytes_eq, bytes_eq_refl, bytes_eq→eq, bytes_eq-false→ne}
use off_drop.OpenSsl.{OpenSsl}
use off_drop.OpenSsl.Documented.{
  Standard, CipherView, keyed, Documented, encrypt_chosen, encrypt_keyed, decrypt_chosen,
  decrypt_keyed,
}
use off_drop.Crypto.{
  EncryptedChunk, int_cast, encrypt_chunk, decrypt_chunk, encrypt_some, decrypt_some, written,
}
use native.Mathlib.Decide.{ℕ_discrete}

-- What the standard makes of a chunk under a key and a nonce.
abbrev pub sealed : Standard → Bytes → Bytes → Bytes → EncryptedChunk
sealed std key nonce text = record {
  nonce = nonce;
  ciphertext = std.encrypt key nonce text;
  tag = std.mac key nonce (std.encrypt key nonce text);
}

written-fits : (n : ℕ) (out : Bytes) → length out ≤ n → written n out [] ≡ ok out
unfolding written
written-fits n out h = rw (append-nil out, le→ltb n (length out + 0) (omega arith))

module _ (lib : OpenSsl) (std : Standard) (doc : Documented lib std) where
  -- The first update, of as many bytes of the text as the `int` says.
  pub encrypt_some_front :
      (c : lib.CipherCtx) (w : lib.World) (k n : Bytes) (v : CipherView) (text : Bytes) (len : ℕ)
      → int_cast (length text) ≡ len
      → 1 ≤ len
      → len < 2 ^ 31
      → len ≤ length text
      → doc.view c ≡ keyed encrypt_keyed k n v
      → let out = std.encrypt k n (take len text) in
        (c' : lib.CipherCtx) × (encrypt_some lib c text w ≡ (ok (out, c'), w))
        × (doc.view c' ≡ record (keyed encrypt_keyed k n v) { ciphertext = out })
  unfolding encrypt_some
  encrypt_some_front c w k n v [] len as_int some_bytes h fits e = absurd (omega (arith, fits))
  encrypt_some_front c w k n v (b ∷ bytes) len as_int some_bytes h fits e =
      let (c', done, seen) =
        doc.encrypt_update_lem c (b ∷ bytes) len some_bytes h fits
          (ap (λ (u : CipherView). u.stage) e) (ap (λ (u : CipherView). u.ciphertext) e) in
      (c', rw (as_int, done) (rw e refl), seen ∙ rw e refl)

  -- The first update, or none for an empty text.
  encrypt_some_lem :
      (c : lib.CipherCtx) (w : lib.World) (k n : Bytes) (v : CipherView) (text : Bytes)
      → length text < 2 ^ 31
      → doc.view c ≡ keyed encrypt_keyed k n v
      → let out = std.encrypt k n text in
        (c' : lib.CipherCtx) × (encrypt_some lib c text w ≡ (ok (out, c'), w))
        × (doc.view c' ≡ record (keyed encrypt_keyed k n v) { ciphertext = out })
  unfolding encrypt_some
  encrypt_some_lem c w k n v [] h e =
      let none_out = nil_of_length (std.encrypt k n []) (std.length-encrypt k n []) in
      (c, rw none_out refl, e ∙ rw none_out refl)
  encrypt_some_lem c w k n v (b ∷ bytes) h e =
      let text : Bytes = b ∷ bytes in
      let (c', done, seen) =
        encrypt_some_front c w k n v text (length text) (omega arith) (omega arith) h (omega arith)
          e in
      let whole = take_of_length-le (length text) text (omega arith) in
      (c', rw whole at done, rw whole at seen)

  decrypt_some_lem :
      (c : lib.CipherCtx) (w : lib.World) (k n : Bytes) (v : CipherView) (text : Bytes)
      → length text < 2 ^ 31
      → doc.view c ≡ keyed decrypt_keyed k n v
      → (c' : lib.CipherCtx) × (decrypt_some lib c text w ≡ (ok (std.decrypt k n text, c'), w))
        × (doc.view c' ≡ record (keyed decrypt_keyed k n v) { ciphertext = text })
  unfolding decrypt_some
  decrypt_some_lem c w k n v [] h e =
      let none_out = nil_of_length (std.decrypt k n []) (std.length-decrypt k n []) in
      (c, rw none_out refl, e)
  decrypt_some_lem c w k n v (b ∷ bytes) h e =
      let (c', done, seen) =
        doc.decrypt_update_lem c (b ∷ bytes) h (ap (λ (u : CipherView). u.stage) e)
          (ap (λ (u : CipherView). u.ciphertext) e) in
      let as_int : int_cast (length (b ∷ bytes)) ≡ length (b ∷ bytes) = omega arith in
      (c', rw (as_int, done) (rw e refl), seen ∙ rw e refl)

  -- What the update makes of a text is the standard's, of a front part of it.
  abbrev pub SealsFront : Bytes → Bytes → Bytes → Type 0
  SealsFront key text front =
      (c : lib.CipherCtx) (w : lib.World) (n : Bytes) (v : CipherView)
      → doc.view c ≡ keyed encrypt_keyed key n v
      → let out = std.encrypt key n front in
        (c' : lib.CipherCtx) × (encrypt_some lib c text w ≡ (ok (out, c'), w))
        × (doc.view c' ≡ record (keyed encrypt_keyed key n v) { ciphertext = out })

  pub encrypt_chunk_front :
      (key text front : Bytes) (w : lib.World)
      → length front ≤ length text
      → SealsFront key text front
      → (nonce : Bytes) × (w' : lib.World) × (length nonce ≡ 12)
        × All IsByte nonce
        × (encrypt_chunk lib key text w ≡ (ok (sealed std key nonce front), w'))
  unfolding encrypt_chunk
  encrypt_chunk_front key text front w room update =
      let (nonce, w1, drawn, wide, bytes) = doc.rand_bytes_lem 12 w in
      let (c, w2, made) = doc.cipher_ctx_new_lem w1 in
      let (c1, set_alg, v1) = doc.encrypt_init_alg_lem c in
      let (c2, set_iv, v2) = doc.set_ivlen_lem c1 12 (omega arith) (inl v1) in
      let chosen : (doc.view c2).stage ≡ encrypt_chosen = rw v2 v1 in
      let iv : length nonce ≡ (doc.view c2).ivlen = rw v2 wide in
      let (c3, set_key, v3) = doc.encrypt_init_key_lem c2 key nonce chosen iv in
      let (c4, done, v4) = update c3 w2 nonce (doc.view c2) v3 in
      let (c5, finished, v5) = doc.encrypt_final_lem c4 (ap (λ (u : CipherView). u.stage) v4) in
      let size = std.length-encrypt key nonce front in
      let fits = written-fits (length text) (std.encrypt key nonce front) (omega (arith, size)) in
      let tag = doc.get_tag_lem c5 (ap (λ (u : CipherView). u.stage) v5) in
      (
        nonce,
        w2,
        wide,
        bytes,
        rw (drawn, made, set_alg, set_iv, set_key, done, finished, fits, tag) (rw (v5, v4) refl),
      )

  -- `encrypt_chunk` returns, for a text below 2 GB: the nonce is twelve bytes from the generator, and
  -- the ciphertext and the tag are those of AES-256-GCM under it.
  pub encrypt_chunk-sealed :
      (key text : Bytes) (w : lib.World)
      → length text < 2 ^ 31
      → (nonce : Bytes) × (w' : lib.World) × (length nonce ≡ 12)
        × All IsByte nonce
        × (encrypt_chunk lib key text w ≡ (ok (sealed std key nonce text), w'))
  encrypt_chunk-sealed key text w h =
      encrypt_chunk_front key text text w (omega arith)
        (λ c u n v e. encrypt_some_lem c u key n v text h e)

-- What a reader that holds the key makes of a chunk: the sizes are tested first, then the tag.
unfoldable pub opened : Standard → Bytes → EncryptedChunk → Result Bytes
opened std key chunk =
    if not (length chunk.nonce == 12)
    then err bad_nonce_size
    else if not (length chunk.tag == 16)
    then err bad_tag_size
    else if bytes_eq chunk.tag (std.mac key chunk.nonce chunk.ciphertext)
    then ok (std.decrypt key chunk.nonce chunk.ciphertext)
    else err authentication_failed

module _ (lib : OpenSsl) (std : Standard) (doc : Documented lib std) where
  -- The calls behind the tests of the sizes.
  decrypt_chunk-sizes :
      (key : Bytes) (chunk : EncryptedChunk) (w : lib.World)
      → length chunk.ciphertext < 2 ^ 31
      → length chunk.nonce ≡ 12
      → length chunk.tag ≡ 16
      → (w' : lib.World) × (decrypt_chunk lib key chunk w ≡ (opened std key chunk, w'))
  unfolding decrypt_chunk opened
  decrypt_chunk-sizes key chunk w h n12 t16 =
      let (c, w1, made) = doc.cipher_ctx_new_lem w in
      let (c1, set_alg, v1) = doc.decrypt_init_alg_lem c in
      let (c2, set_iv, v2) = doc.set_ivlen_lem c1 12 (omega arith) (inr v1) in
      let chosen : (doc.view c2).stage ≡ decrypt_chosen = rw v2 v1 in
      let iv : length chunk.nonce ≡ (doc.view c2).ivlen = rw v2 n12 in
      let (c3, set_key, v3) = doc.decrypt_init_key_lem c2 key chunk.nonce chosen iv in
      let (c4, done, v4) =
        decrypt_some_lem lib std doc c3 w1 key chunk.nonce (doc.view c2) chunk.ciphertext h v3 in
      let (c5, set_tag, v5) =
        doc.set_tag_lem c4 chunk.tag t16 (ap (λ (u : CipherView). u.stage) v4) in
      let started : (doc.view c5).stage ≡ decrypt_keyed = rw (v5, v4) refl in
      let nonce_ok = eq→== _ _ n12 in
      let tag_ok = eq→== _ _ t16 in
      let fits =
        written-fits (length chunk.ciphertext) (std.decrypt key chunk.nonce chunk.ciphertext)
          (omega (arith, std.length-decrypt key chunk.nonce chunk.ciphertext)) in
      elim (Bool-cases (bytes_eq chunk.tag (std.mac key chunk.nonce chunk.ciphertext))) [
        | inl same ↦
            let (c6, finished) =
              doc.decrypt_final_same c5 started (rw (v5, v4) (bytes_eq→eq _ _ same)) in
            (
              w1,
              rw (
                nonce_ok, tag_ok, made, set_alg, set_iv, set_key, done, set_tag, finished, fits,
                same,
              ),
            )
        | inr other ↦
            let differs = λ (e : chunk.tag ≡ std.mac key chunk.nonce chunk.ciphertext).
              bytes_eq-false→ne _ _ other e in
            let refused = doc.decrypt_final_other c5 started (rw (v5, v4) differs) in
            (
              w1,
              rw (nonce_ok, tag_ok, made, set_alg, set_iv, set_key, done, set_tag, refused, other),
            )
      ]

  -- Over a library that keeps to its manual, `decrypt_chunk` gives, on every chunk whose ciphertext
  -- is below 2 GB, exactly what `opened` says: the text under the right tag, and otherwise the
  -- exception for the nonce's size, the tag's size or the tag, in this order.
  pub decrypt_chunk-opened :
      (key : Bytes) (chunk : EncryptedChunk) (w : lib.World)
      → length chunk.ciphertext < 2 ^ 31
      → (w' : lib.World) × (decrypt_chunk lib key chunk w ≡ (opened std key chunk, w'))
  decrypt_chunk-opened key chunk w h = elim (ℕ_discrete (length chunk.nonce) 12) [
    | no n ↦ (w, unfold decrypt_chunk opened in rw (ne→== _ _ n))
    | yes n12 ↦ elim (ℕ_discrete (length chunk.tag) 16) [
      | no t ↦ (w, unfold decrypt_chunk opened in rw (eq→== _ _ n12, ne→== _ _ t))
      | yes t16 ↦ decrypt_chunk-sizes key chunk w h n12 t16
    ]
  ]

  pub opened-sealed :
      (key nonce text : Bytes)
      → length nonce ≡ 12
      → opened std key (sealed std key nonce text) ≡ ok text
  unfolding opened
  opened-sealed key nonce text n12 =
      rw
        (
          eq→== _ _ n12,
          eq→== _ _ (std.length-mac key nonce (std.encrypt key nonce text)),
          bytes_eq_refl,
        )
        (ap ok (std.decrypt-encrypt key nonce text))

  -- Over a library that keeps to its manual, `encrypt_chunk` returns a chunk for a text below 2 GB,
  -- and `decrypt_chunk` with the same key gives the text back, whatever the library did in between.
  pub decrypt_chunk-encrypt_chunk :
      (key text : Bytes) (w v : lib.World)
      → length text < 2 ^ 31
      → (chunk : EncryptedChunk) × (w' : lib.World) × (v' : lib.World) × (encrypt_chunk lib key text
            w
          ≡ (ok chunk, w'))
        × (decrypt_chunk lib key chunk v ≡ (ok text, v'))
  decrypt_chunk-encrypt_chunk key text w v h =
      let (nonce, w', n12, _, done) = encrypt_chunk-sealed lib std doc key text w h in
      let small = subst (λ (n : ℕ). n < 2 ^ 31) (sym (std.length-encrypt key nonce text)) h in
      let (v', back) = decrypt_chunk-opened key (sealed std key nonce text) v small in
      (sealed std key nonce text, w', v', done, back ∙ rw (opened-sealed key nonce text n12))

-- A chunk as `encrypt_chunk` makes it of a text: the key opens it at any time, and its parts are
-- bytes of the sizes that the protocol names.
pub record IsSealed (lib : OpenSsl) (key text : Bytes) (chunk : EncryptedChunk) : Type 0 where
  pub opens : (v : lib.World) → (v' : lib.World) × (decrypt_chunk lib key chunk v ≡ (ok text, v'))
  pub nonce_size : length chunk.nonce ≡ 12
  pub ciphertext_size : length chunk.ciphertext ≡ length text
  pub tag_size : length chunk.tag ≡ 16
  pub nonce_bytes : All IsByte chunk.nonce
  pub ciphertext_bytes : All IsByte chunk.ciphertext
  pub tag_bytes : All IsByte chunk.tag

module _ (lib : OpenSsl) (std : Standard) (doc : Documented lib std) where
  -- `encrypt_chunk` returns a chunk for a text of bytes below 2 GB, over a library that keeps to its
  -- manual: the key opens the chunk to the text at any later time, and its parts are bytes, 12 of the
  -- nonce, 16 of the tag, and as many of the ciphertext as of the text.
  pub encrypt_chunk-IsSealed :
      (key text : Bytes) (w : lib.World)
      → length text < 2 ^ 31
      → All IsByte text
      → (chunk : EncryptedChunk) × (w' : lib.World) × (encrypt_chunk lib key text w
          ≡ (ok chunk, w'))
        × IsSealed lib key text chunk
  encrypt_chunk-IsSealed key text w h bytes =
      let (nonce, w', n12, nonce_bytes, done) = encrypt_chunk-sealed lib std doc key text w h in
      let chunk = sealed std key nonce text in
      let small = subst (λ (n : ℕ). n < 2 ^ 31) (sym (std.length-encrypt key nonce text)) h in
      (
        chunk,
        w',
        done,
        record {
          opens = λ v.
              let (v', back) = decrypt_chunk-opened lib std doc key chunk v small in
              (v', back ∙ rw (opened-sealed lib std doc key nonce text n12));
          nonce_size = n12;
          ciphertext_size = std.length-encrypt key nonce text;
          tag_size = std.length-mac key nonce (std.encrypt key nonce text);
          nonce_bytes = nonce_bytes;
          ciphertext_bytes = std.encrypt-IsByte key nonce text bytes;
          tag_bytes = std.mac-IsByte key nonce (std.encrypt key nonce text);
        },
      )
