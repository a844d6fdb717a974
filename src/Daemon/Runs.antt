-- ===== src/Daemon/Runs.antt =====
-- The Go functions of cmd/daemon one after the other: a text that is encrypted and decrypted again,
-- and the run of main.go, over libraries that keep to their manuals and a `malloc` that serves.
use off_drop.Base.{ℕ, ◌^◌, ◌≤◌, ◌<◌, ◌≡◌, inl, inr, refl, ap, ◌∙◌, arith}
use off_drop.Base.{[], length, none, some}
use off_drop.Base.Result.{ok, err, index_out_of_range}
use off_drop.Protocol.{Bytes}
use off_drop.Files.{FileSystem, open_in, bytes_eq_refl}
use off_drop.OpenSsl.{OpenSsl}
use off_drop.OpenSsl.Documented.{Standard, Documented}
use off_drop.Crypto.{EncryptedChunk}
use off_drop.Crypto.Seal.{sealed, opened-sealed}
use off_drop.KeyAgreement.{PkeyCalls}
use off_drop.KeyAgreement.Documented.{KeyStandard, KeyDocumented}
use off_drop.KeyAgreement.Agreement.{session_of, session_of_swap}
use off_drop.Memory.{Memory, Malloc}
use off_drop.CApi.Handing.{Serves, IsFresh}
use off_drop.Daemon.{value, encrypt_chunk, decrypt_chunk}
use off_drop.Daemon.Decrypting.{answer}
use off_drop.Daemon.Hashing.{sha256_file-Restores, hash_of_ok}
use off_drop.Daemon.Keys.{generate_key_pair-Restores, derive_session_key-Restores}
use off_drop.Daemon.Locals.{Restores, Leaves}
use off_drop.Daemon.Main.{session_info, test_text, must, main}
use off_drop.Daemon.Opening.{HasParts, decrypt_chunk-answer, decrypt_chunk_empty}
use off_drop.Daemon.Sealing.{encrypt_chunk-sealed, encrypt_chunk-Leaks}
use off_drop.Daemon.Strings.{IsText, has_no_zero-IsText}

module _ (lib : OpenSsl) (std : Standard) (doc : Documented lib std) (malloc : Malloc)
    (serves : Serves malloc) where
  sealed-HasParts :
      (key nonce text : Bytes)
      → length nonce ≡ 12
      → 1 ≤ length text
      → length text < 2 ^ 31
      → HasParts (sealed std key nonce text)
  sealed-HasParts key nonce text size filled small =
      let c = sealed std key nonce text in
      let wide = std.length-encrypt key nonce text in
      let tag_size = std.length-mac key nonce c.ciphertext in
      record {
        nonce = omega (arith, size);
        ciphertext = omega (arith, wide);
        tag = omega (arith, tag_size);
        small = omega (arith, wide);
      }

  -- The two calls, and the memory between them and behind.
  there_and_back :
      (key text : Bytes) (m : Memory) (w : lib.World)
      → IsFresh m
      → length key ≡ 32
      → 1 ≤ length text
      → length text < 2 ^ 31
      → (c : EncryptedChunk) × (w' : lib.World) × (m' : Memory) × (encrypt_chunk lib malloc key text
            (w, m)
          ≡ (ok (value c), (w', m')))
        × Restores m m'
        × ((x : lib.World)
            → (x' : lib.World) × Leaves lib.World Restores
                (decrypt_chunk lib malloc key c (x, m'))
                m'
                (ok (value text))
                x')
  there_and_back key text m w fresh wide filled small =
      let (nonce, w', size, (m', sent, v)) =
        encrypt_chunk-sealed lib std doc malloc serves m key fresh wide text w filled small in
      let c = sealed std key nonce text in
      let parts = sealed-HasParts key nonce text size filled small in
      let good = opened-sealed lib std doc key nonce text size in
      (
        c,
        w',
        m',
        sent,
        v,
        λ x.
            let (x', (m'', back, u)) =
              decrypt_chunk-answer lib std doc malloc serves m' key c v.fresh wide x parts in
            (x', (m'', back ∙ ap (λ r. (answer r, (x', m''))) good, u)),
      )

  -- The Go functions give a text back that is not empty: `encrypt_chunk` returns a chunk, from which
  -- `decrypt_chunk` returns the text under the same key, whatever the library did in between, and
  -- neither leaves a block of the memory behind or changes one. The key has 32 bytes, the text is
  -- below 2 GB, the library keeps to its manual, and `malloc` serves.
  pub decrypt_chunk_gives_back :
      (key text : Bytes) (m : Memory) (w x : lib.World)
      → IsFresh m
      → length key ≡ 32
      → 1 ≤ length text
      → length text < 2 ^ 31
      → (c : EncryptedChunk) × (w' x' : lib.World) × (m' m'' : Memory) × (encrypt_chunk lib malloc
            key text
            (w, m)
          ≡ (ok (value c), (w', m')))
        × (decrypt_chunk lib malloc key c (x, m') ≡ (ok (value text), (x', m'')))
        × ((a : ℕ) → m'.blocks a ≡ m.blocks a)
        × ((a : ℕ) → m''.blocks a ≡ m.blocks a)
  decrypt_chunk_gives_back key text m w x fresh wide filled small =
      let (c, w', m', sent, v, opens) = there_and_back key text m w fresh wide filled small in
      let (x', (m'', back, u)) = opens x in
      (c, w', x', m', m'', sent, back, v.blocks, λ a. u.blocks a ∙ v.blocks a)

  -- The Go functions do not give an empty text back: `encrypt_chunk` returns a chunk of it, and
  -- leaves a block of the memory behind that was not there before and that nobody frees;
  -- `decrypt_chunk` of that chunk panics, since it takes the address of the first byte of the
  -- ciphertext. The key has 32 bytes, the library keeps to its manual, and `malloc` serves.
  pub decrypt_chunk_empty_text :
      (key : Bytes) (m : Memory) (w x : lib.World)
      → IsFresh m
      → length key ≡ 32
      → (c : EncryptedChunk) × (w' : lib.World) × (m' m'' : Memory) × (lost : ℕ) × (encrypt_chunk
            lib malloc key []
            (w, m)
          ≡ (ok (value c), (w', m')))
        × (m.blocks lost ≡ none)
        × (m'.blocks lost ≡ some [])
        × (decrypt_chunk lib malloc key c (x, m') ≡ (err index_out_of_range, (x, m'')))
  decrypt_chunk_empty_text key m w x fresh wide =
      let (nonce, w', size, (m', sent, v)) =
        encrypt_chunk-Leaks lib std doc malloc serves m key fresh wide w in
      let c = sealed std key nonce [] in
      let nothing = std.length-encrypt key nonce [] in
      let (m'', panics) = decrypt_chunk_empty lib malloc m' key c x (inr (inl nothing)) in
      (c, w', m', m'', v.lost, sent, v.was, v.stays, panics)

  session_info-IsText : IsText session_info
  session_info-IsText = has_no_zero-IsText session_info refl

  -- The run of main.go comes to its end without a fatal message: two pairs of keys are made, both
  -- ends derive the same session key, the text that one encrypts the other decrypts, and no block
  -- of the memory is left behind or changed, whether or not the file of the last step can be
  -- opened. The libraries keep to their manuals, `malloc` serves, the path has no zero byte, and
  -- the hash of that file has 32 bytes.
  pub main_runs :
      (pkey : PkeyCalls lib.World) (key_std : KeyStandard) (key_doc : KeyDocumented pkey key_std)
      (disk : FileSystem) (self_path : Bytes) (m : Memory) (w : lib.World)
      → IsFresh m
      → IsText self_path
      → ((file : Bytes) → open_in disk self_path ≡ some file → length (std.sha256 file) ≡ 32)
      → (w' : lib.World) × (m' : Memory) × (main lib malloc pkey disk self_path (w, m)
          ≡ (ok tt, (w', m')))
        × ((a : ℕ) → m'.blocks a ≡ m.blocks a)
  unfolding main must
  main_runs pkey key_std key_doc disk self_path m w fresh is_text size =
      let (alice, w1, v1, (m1, made1, r1)) =
        generate_key_pair-Restores lib malloc pkey key_std key_doc m fresh w in
      let (bob, w2, v2, (m2, made2, r2)) =
        generate_key_pair-Restores lib malloc pkey key_std key_doc m1 r1.fresh w1 in
      let (w3, (m3, mine, r3)) =
        derive_session_key-Restores lib malloc pkey key_std key_doc m2 r2.fresh alice bob
          session_info w2 serves v1 v2 session_info-IsText (omega arith) in
      let (w4, (m4, yours, r4)) =
        derive_session_key-Restores lib malloc pkey key_std key_doc m3 r3.fresh bob alice
          session_info w3 serves v2 v1 session_info-IsText (omega arith) in
      let session = session_of pkey key_std key_doc alice bob session_info in
      let same = session_of_swap pkey key_std key_doc alice bob session_info in
      let wide : length session ≡ 32 = key_std.length-hkdf _ _ _ in
      let (c, w5, m5, sent, r5, opens) =
        there_and_back session test_text m4 w4 r4.fresh wide (omega arith) (omega arith) in
      let (w6, (m6, back, r6)) = opens w5 in
      let (r, returned) = hash_of_ok std (open_in disk self_path) in
      let (w7, (m7, hashed, r7)) =
        sha256_file-Restores lib std doc malloc serves disk self_path is_text size m6 r6.fresh w6 in
      (
        w7,
        m7,
        rw (made1, made2, mine, yours, same, bytes_eq_refl session)
            (rw (sent, back, bytes_eq_refl test_text) (rw (hashed, returned) refl)),
        λ a.
            r7.blocks a
            ∙ r6.blocks a
            ∙ r5.blocks a
            ∙ r4.blocks a
            ∙ r3.blocks a
            ∙ r2.blocks a
            ∙ r1.blocks a,
      )
