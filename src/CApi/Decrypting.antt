-- ===== src/CApi/Decrypting.antt =====
-- `airdrop_decrypt_chunk` of core/src/c_api.cpp on any chunk, over a library that keeps to its
-- manual: where `malloc` serves, and where it fails.
use off_drop.Base.{ℕ, ◌^◌, ◌<◌, ◌≡◌, refl, ◌∙◌, length, none, some}
use off_drop.Base.Result.{Result, ok, err, fault}
use off_drop.Base.Action
use off_drop.Protocol.{Bytes}
use off_drop.OpenSsl.{OpenSsl}
use off_drop.OpenSsl.Documented.{Standard, Documented}
use off_drop.Crypto.{EncryptedChunk}
use off_drop.Crypto.Seal.{opened, decrypt_chunk-opened}
use off_drop.Memory.{Pointer, AirdropBuffer, Memory, Malloc, write, load}
use off_drop.Memory.Writes.{put_buffer_lem, write_self}
use off_drop.CApi.{AirdropStatus, airdrop_ok, airdrop_err_crypto, caught, guarded}
use off_drop.CApi.{airdrop_decrypt_chunk, decrypt_body, hand_out, make_buffer, filled}
use off_drop.CApi.Handing.{Serves, handed, hand_out_lem}

-- The status and the memory after a chunk was opened.
abbrev pub after_opening : Memory → ℕ → Result Bytes → Result AirdropStatus × Memory
after_opening m out (ok text) = (ok airdrop_ok, handed m out text)
after_opening m out (err e) = (ok airdrop_err_crypto, m)
after_opening m out fault = (fault, m)

-- A chunk in the caller's blocks, and a structure for its text.
pub record Given (m : Memory) (k op : ℕ) (pn pc pt : Pointer) (key : Bytes) (c : EncryptedChunk)
    : Type 0 where
  pub key_there : load (some k) 32 m ≡ ok key
  pub nonce_there : load pn (length c.nonce) m ≡ ok c.nonce
  pub ciphertext_there : load pc (length c.ciphertext) m ≡ ok c.ciphertext
  pub tag_there : load pt (length c.tag) m ≡ ok c.tag
  pub slot : (old : AirdropBuffer) × (m.buffers op ≡ some old)
  pub small : length c.ciphertext < 2 ^ 31

module _ (lib : OpenSsl) (std : Standard) (doc : Documented lib std) (malloc : Malloc) where
  -- The call up to the buffer of the text.
  decrypt_call :
      (m : Memory) (k op : ℕ) (pn pc pt : Pointer) (key : Bytes) (c : EncryptedChunk)
      (w : lib.World)
      → Given m k op pn pc pt key c
      → (w' : lib.World) × (airdrop_decrypt_chunk lib malloc
            (some k)
            pn
            (length c.nonce)
            pc
            (length c.ciphertext)
            pt
            (length c.tag)
            (some op)
            (w, m)
          ≡ caught airdrop_err_crypto (
              Action.continue
                (opened std key c, (w', m))
                λ text. hand_out lib malloc (some op) text))
  unfolding airdrop_decrypt_chunk guarded decrypt_body
  decrypt_call m k op pn pc pt key c w v =
      let (w', decrypted) = decrypt_chunk-opened lib std doc key c w v.small in
      (w', rw (v.key_there, v.nonce_there, v.ciphertext_there, v.tag_there, decrypted) refl)

  -- `airdrop_decrypt_chunk` of any chunk in the caller's blocks, whose ciphertext is below 2 GB,
  -- over a library that keeps to its manual and a `malloc` that serves: it returns AIRDROP_OK and
  -- hands out a new block with the text exactly where the key opens the chunk, and otherwise
  -- AIRDROP_ERR_CRYPTO, and then the memory is as before.
  pub airdrop_decrypt_chunk-opened :
      Serves malloc
      → (m : Memory) (k op : ℕ) (pn pc pt : Pointer) (key : Bytes) (c : EncryptedChunk)
        (w : lib.World)
      → Given m k op pn pc pt key c
      → (w' : lib.World) × (airdrop_decrypt_chunk lib malloc
            (some k)
            pn
            (length c.nonce)
            pc
            (length c.ciphertext)
            pt
            (length c.tag)
            (some op)
            (w, m)
          ≡ (let (status, m') = after_opening m op (opened std key c) in (status, (w', m'))))
  unfolding caught
  airdrop_decrypt_chunk-opened serves m k op pn pc pt key c w v =
      let (w', called) = decrypt_call m k op pn pc pt key c w v in
      (w', called ∙ by_outcome w' (opened std key c))
    where
      by_outcome :
          (w' : lib.World) (r : Result Bytes)
          → caught airdrop_err_crypto
              (Action.continue (r, (w', m)) (λ text. hand_out lib malloc (some op) text))
            ≡ (let (status, m') = after_opening m op r in (status, (w', m')))
      by_outcome w' (ok text) =
          rw (hand_out_lem malloc serves lib w' m op v.slot.0 text v.slot.1) refl
      by_outcome w' (err e) = refl
      by_outcome w' fault = refl

  -- Where the key opens a chunk in the caller's blocks and `malloc` then fails,
  -- `airdrop_decrypt_chunk` returns AIRDROP_OK all the same, and the caller's structure has a null
  -- pointer and the length of the text. The ciphertext is below 2 GB, and the library keeps to its
  -- manual.
  pub airdrop_decrypt_chunk_unserved :
      (m : Memory) (k op : ℕ) (pn pc pt : Pointer) (key text : Bytes) (c : EncryptedChunk)
      (w : lib.World)
      → Given m k op pn pc pt key c
      → opened std key c ≡ ok text
      → malloc (length text) m.next ≡ none
      → (w' : lib.World) × (m' : Memory) × (airdrop_decrypt_chunk lib malloc
            (some k)
            pn
            (length c.nonce)
            pc
            (length c.ciphertext)
            pt
            (length c.tag)
            (some op)
            (w, m)
          ≡ (ok airdrop_ok, (w', m')))
        × (m'.buffers op ≡ some (record { data_ptr = none; len = length text }))
  unfolding caught hand_out make_buffer filled
  airdrop_decrypt_chunk_unserved m k op pn pc pt key text c w v opens fails =
      let (w', called) = decrypt_call m k op pn pc pt key c w v in
      let null : AirdropBuffer = record { data_ptr = none; len = length text } in
      (
        w',
        record m { buffers = write m.buffers op (some null) },
        called ∙ rw (opens, fails, put_buffer_lem m op v.slot.0 null v.slot.1) refl,
        write_self m.buffers op (some null),
      )
