-- ===== src/Daemon.antt =====
-- cmd/daemon/bridge.go: the Go functions over the C interface. A Go variable that a C function is
-- given a pointer to is a block of the memory, or a structure, until the Go function returns; a Go
-- array is its bytes. A panic is an exception.
pub mod Locals
pub mod Arrays
pub mod Buffers
pub mod Frame
pub mod Encrypting
pub mod Sealing
pub mod Decrypting
pub mod Opening
pub mod Strings
pub mod Main
pub mod Runs
pub mod Keys
pub mod Hashing
use off_drop.Base.{ℕ, suc, ◌+◌, ◌%◌, ◌^◌, [], ◌∷◌, ◌++◌, length, replicate, none, some}
use off_drop.Base.{Bool, true, false, ◌||◌, ltb, ◌==◌, if◌then◌else◌}
use off_drop.Base.Result.{Result, ok, err, fault, index_out_of_range, length_out_of_range}
use off_drop.Base.Result.{malloc_failed}
use off_drop.Base.Action.{Action, pure, lift, ◌>>=◌, ◌>>◌}
use off_drop.Protocol.{Bytes}
use off_drop.Files.{FileSystem}
use off_drop.OpenSsl.{OpenSsl}
use off_drop.Crypto.{EncryptedChunk}
use off_drop.KeyAgreement.{PkeyCalls, KeyPair}
use off_drop.Memory.{Pointer, is_null, AirdropBuffer, Memory, Malloc, write, load, free_block}
use off_drop.CApi.{
  AirdropStatus, airdrop_ok, airdrop_err_invalid_arg, airdrop_err_crypto, airdrop_err_io, Calls,
  reading, on_memory, airdrop_free_buffer, airdrop_encrypt_chunk, airdrop_decrypt_chunk,
  airdrop_sha256_file, airdrop_generate_keypair, airdrop_derive_session_key,
}

-- A `(T, error)`: the value, or the status that the error reports.
pub data Returned {ℓ} (A : Type ℓ) : Type ℓ where
  value : A → Returned A
  failed : AirdropStatus → Returned A

-- A deferred call runs behind the body, whatever the body's outcome.
abbrev pub both {ℓ} : {A : Type ℓ} → Result A → Result (Unit {0}) → Result A
both r (ok done) = r
both r (err e) = err e
both r fault = fault

-- `&chunk.Nonce[0]`, `&chunk.Ciphertext[0]` and `&chunk.Tag[0]`.
unfoldable pub first_elements : Bytes → Bytes → Bytes → Result (Unit {0})
first_elements [] ciphertext tag = err index_out_of_range
first_elements (n ∷ nonce) [] tag = err index_out_of_range
first_elements (n ∷ nonce) (c ∷ ciphertext) [] = err index_out_of_range
first_elements (n ∷ nonce) (c ∷ ciphertext) (t ∷ tag) = ok tt

-- `C.free`
abbrev pub free : ℕ → Action Memory (Unit {0})
free a m = free_block (m.blocks a) a m

-- `C.GoBytes(p, C.int(n))`
unfoldable pub go_bytes : Pointer → ℕ → Memory → Result Bytes
go_bytes p n m =
    if ltb (n % 2 ^ 32) (2 ^ 31) then load p (n % 2 ^ 32) m else err length_out_of_range

-- What a structure holds.
unfoldable pub read_slot : ℕ → Memory → Result AirdropBuffer
read_slot a m = elim (m.buffers a) [ none ↦ fault | some buf ↦ ok buf ]

-- The memory with one more block, or one more structure.
abbrev pub with_bytes : Memory → Bytes → Memory
with_bytes m bytes = record m { next = suc m.next; blocks = write m.blocks m.next (some bytes) }

abbrev pub with_empty : Memory → Memory
with_empty m = record m {
  next = suc m.next;
  buffers = write m.buffers m.next (some (record { data_ptr = none; len = 0 }));
}

abbrev pub zeros : Bytes
zeros = replicate 32 0

module _ (lib : OpenSsl) (malloc : Malloc) where
  abbrev pub Go : Type 0 → Type 0
  Go A = Calls lib malloc A

  unfoldable pub finally : {A : Type 0} → Go A → Go (Unit {0}) → Go A
  finally body clean s = let (r, s') = body s in let (c, s'') = clean s' in (both r c, s'')

  -- `var x [32]byte` or a slice, with a pointer to its first byte.
  unfoldable pub with_block : {A : Type 0} → Bytes → (ℕ → Go A) → Go A
  with_block bytes body (w, m) =
      let (r, (w', m')) = body m.next (w, with_bytes m bytes) in
      (r, (w', record m' { blocks = write m'.blocks m.next none }))

  -- `var x C.airdrop_buffer`, with a pointer to it.
  unfoldable pub with_slot : {A : Type 0} → (ℕ → Go A) → Go A
  with_slot body (w, m) =
      let (r, (w', m')) = body m.next (w, with_empty m) in
      (r, (w', record m' { buffers = write m'.buffers m.next none }))

  -- `c := C.CString(text); defer C.free(unsafe.Pointer(c))`
  unfoldable pub with_string : {A : Type 0} → Bytes → (ℕ → Go A) → Go A
  unfolding finally
  with_string text body (w, m) = elim (malloc (length text + 1) m.next) [
    | none ↦ (err malloc_failed, (w, m))
    | some raw ↦
        finally (body m.next) (on_memory lib malloc (free m.next))
          (w, with_bytes m (text ++ 0 ∷ []))
  ]

  -- `ptPtr`: the address of the first byte, if there is one.
  unfoldable pub with_slice : {A : Type 0} → Bytes → (Pointer → Go A) → Go A
  unfolding with_block
  with_slice [] body = body none
  with_slice (b ∷ bytes) body = with_block (b ∷ bytes) λ a. body (some a)

  unfoldable pub buf_to_bytes : AirdropBuffer → Go Bytes
  unfolding finally go_bytes
  buf_to_bytes buf =
      if is_null buf.data_ptr || buf.len == 0
      then pure []
      else finally (reading lib malloc (go_bytes buf.data_ptr buf.len))
          (on_memory lib malloc (airdrop_free_buffer buf))

  -- `bufToBytes` of a structure.
  unfoldable pub take_out : ℕ → Go Bytes
  unfolding buf_to_bytes read_slot
  take_out a = do buf ← reading lib malloc (read_slot a); buf_to_bytes buf

  -- `if status != C.AIRDROP_OK { return ..., fmt.Errorf(...) }`
  unfoldable pub if_ok : {A : Type 0} → AirdropStatus → Go A → Go (Returned A)
  if_ok airdrop_ok rest = rest >>= λ a. pure (value a)
  if_ok airdrop_err_invalid_arg rest = pure (failed airdrop_err_invalid_arg)
  if_ok airdrop_err_crypto rest = pure (failed airdrop_err_crypto)
  if_ok airdrop_err_io rest = pure (failed airdrop_err_io)

  unfoldable pub chunk_of : ℕ → ℕ → ℕ → Go EncryptedChunk
  unfolding take_out
  chunk_of nonce ciphertext tag = do
    nonce_bytes ← take_out nonce
    ciphertext_bytes ← take_out ciphertext
    tag_bytes ← take_out tag
    pure (record { nonce = nonce_bytes; ciphertext = ciphertext_bytes; tag = tag_bytes })

  unfoldable pub encrypt_into : ℕ → Pointer → ℕ → ℕ → ℕ → ℕ → Go (Returned EncryptedChunk)
  unfolding if_ok chunk_of
  encrypt_into key text len nonce ciphertext tag = do
    status ←
        airdrop_encrypt_chunk lib malloc (some key) text len (some nonce) (some ciphertext)
          (some tag)
    if_ok status (chunk_of nonce ciphertext tag)

  unfoldable pub encrypt_chunk : Bytes → Bytes → Go (Returned EncryptedChunk)
  unfolding encrypt_into with_slot with_block with_slice
  encrypt_chunk session_key plaintext = with_slot λ nonce. with_slot λ ciphertext. with_slot λ tag.
      with_block session_key λ key.
        with_slice plaintext λ text. encrypt_into key text (length plaintext) nonce ciphertext tag

  unfoldable pub decrypt_into : EncryptedChunk → ℕ → ℕ → ℕ → ℕ → ℕ → Go (Returned Bytes)
  unfolding if_ok take_out
  decrypt_into chunk plaintext key nonce ciphertext tag = do
    status ←
        airdrop_decrypt_chunk lib malloc (some key) (some nonce) (length chunk.nonce)
          (some ciphertext) (length chunk.ciphertext) (some tag) (length chunk.tag) (some plaintext)
    if_ok status (take_out plaintext)

  unfoldable pub decrypt_chunk : Bytes → EncryptedChunk → Go (Returned Bytes)
  unfolding decrypt_into with_slot with_block
  decrypt_chunk session_key chunk = with_slot λ plaintext.
      (lift (first_elements chunk.nonce chunk.ciphertext chunk.tag)
        >> (with_block session_key λ key. with_block chunk.nonce λ nonce.
            with_block chunk.ciphertext λ ciphertext.
              with_block chunk.tag λ tag. decrypt_into chunk plaintext key nonce ciphertext tag))

  unfoldable pub sha256_file : FileSystem → Bytes → Go (Returned Bytes)
  unfolding with_block with_string if_ok
  sha256_file disk path = with_block zeros λ digest. with_string path λ name. do
    status ← airdrop_sha256_file lib malloc disk (some name) (some digest)
    if_ok status (reading lib malloc (load (some digest) 32))

  module _ (pkey : PkeyCalls lib.World) where
    -- The structure that `GenerateKeyPair` fills is two arrays.
    unfoldable pub pair_of : ℕ → ℕ → Go KeyPair
    pair_of public private = do
      public_bytes ← reading lib malloc (load (some public) 32)
      private_bytes ← reading lib malloc (load (some private) 32)
      pure (record { public_key = public_bytes; private_key = private_bytes })

    unfoldable pub generate_key_pair : Go (Returned KeyPair)
    unfolding with_block if_ok pair_of
    generate_key_pair = with_block zeros λ public. with_block zeros λ private. do
      status ← airdrop_generate_keypair lib malloc pkey (some public) (some private)
      if_ok status (pair_of public private)

    unfoldable pub derive_session_key : Bytes → Bytes → Bytes → Go (Returned Bytes)
    unfolding with_block with_string if_ok
    derive_session_key my_private peer_public info = with_block zeros λ session.
        with_string info λ text. with_block my_private λ mine. with_block peer_public λ yours. do
          status ←
              airdrop_derive_session_key lib malloc pkey (some mine) (some yours) (some text)
                (some session)
          if_ok status (reading lib malloc (load (some session) 32))
