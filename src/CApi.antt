-- ===== src/CApi.antt =====
-- core/include/c_api.h and core/src/c_api.cpp: the functions of the core for callers in other
-- languages. The state is the library's, and the memory. A function returns a status; an exception is
-- caught, and what was changed before it stays changed.
pub mod Handing
pub mod Chunks
pub mod Decrypting
pub mod Keys
pub mod Hashing
pub mod Request
pub mod RoundTrip
pub mod Returns
use off_drop.Base.{ℕ, suc, List, [], ◌∷◌, length, Option, none, some, Bool, true, false, ◌||◌}
use off_drop.Base.Result.{Result, ok, err, fault}
use off_drop.Base.Action.{Action, pure, ◌>>=◌, ◌>>◌}
use off_drop.Protocol.{Bytes}
use off_drop.Files.{FileSystem}
use off_drop.OpenSsl.{OpenSsl}
use off_drop.Crypto.{EncryptedChunk, encrypt_chunk, decrypt_chunk, sha256_file}
use off_drop.KeyAgreement.{PkeyCalls, generate_key_pair, derive_session_key}
use off_drop.Memory.{Pointer, is_null, AirdropBuffer, Memory, Malloc, write, load, load_string}
use off_drop.Memory.{copy_to, put_buffer, free_block}

pub data AirdropStatus : Type 0 where
  airdrop_ok airdrop_err_invalid_arg airdrop_err_crypto airdrop_err_io : AirdropStatus

-- `try { ...; return AIRDROP_OK; } catch (...) { return status; }`
pub caught {ℓ} : {S : Type ℓ} → AirdropStatus → Result (Unit {0}) × S → Result AirdropStatus × S
caught status (ok done, s) = (ok airdrop_ok, s)
caught status (err e, s) = (ok status, s)
caught status (fault, s) = (fault, s)

-- What `malloc` gave, filled with the bytes if there are any.
filled : Bytes → Option Bytes → Action Memory AirdropBuffer
filled src none m = (ok (record { data_ptr = none; len = length src }), m)
filled src (some raw) m =
    let placed : Memory = record m {
      next = suc m.next;
      blocks = write m.blocks m.next (some raw);
    } in
    let buf : AirdropBuffer = record { data_ptr = some m.next; len = length src } in
    elim src [
      | [] ↦ (ok buf, placed)
      | b ∷ bytes ↦ (copy_to (some m.next) (b ∷ bytes) >> pure buf) placed
    ]

pub make_buffer : Malloc → Bytes → Action Memory AirdropBuffer
unfolding filled
make_buffer malloc src m = filled src (malloc (length src) m.next) m

pub airdrop_free_buffer : AirdropBuffer → Action Memory (Unit {0})
airdrop_free_buffer buf m = elim buf.data_ptr [
  | none ↦ (ok tt, m)
  | some a ↦ free_block (m.blocks a) a m
]

module _ (lib : OpenSsl) (malloc : Malloc) where
  abbrev pub Calls : Type 0 → Type 0
  Calls A = Action (lib.World × Memory) A

  -- A call of crypto.cpp, a read of the memory, and a change of it.
  abbrev pub on_ssl : {A : Type 0} → Action lib.World A → Calls A
  on_ssl call (w, m) = let (r, w') = call w in (r, (w', m))

  abbrev pub reading : {A : Type 0} → (Memory → Result A) → Calls A
  reading read (w, m) = (read m, (w, m))

  abbrev pub on_memory : {A : Type 0} → Action Memory A → Calls A
  on_memory change (w, m) = let (r, m') = change m in (r, (w, m'))

  -- The checks of the arguments in front of a body.
  pub guarded : Bool → AirdropStatus → Calls (Unit {0}) → Calls AirdropStatus
  guarded true status body s = (ok airdrop_err_invalid_arg, s)
  guarded false status body s = caught status (body s)

  -- `*out = MakeBuffer(bytes);`
  pub hand_out : Pointer → Bytes → Calls (Unit {0})
  unfolding make_buffer
  hand_out out bytes = do buf ← on_memory (make_buffer malloc bytes); on_memory (put_buffer out buf)

  pub encrypt_body : Pointer → Pointer → ℕ → Pointer → Pointer → Pointer → Calls (Unit {0})
  unfolding hand_out
  encrypt_body session_key32 plaintext plaintext_len out_nonce out_ciphertext out_tag = do
    key ← reading (load session_key32 32)
    pt ← reading (load plaintext plaintext_len)
    enc ← on_ssl (encrypt_chunk lib key pt)
    hand_out out_nonce enc.nonce
    hand_out out_ciphertext enc.ciphertext
    hand_out out_tag enc.tag

  pub airdrop_encrypt_chunk :
      Pointer → Pointer → ℕ → Pointer → Pointer → Pointer → Calls AirdropStatus
  unfolding guarded encrypt_body
  airdrop_encrypt_chunk session_key32 plaintext plaintext_len out_nonce out_ciphertext out_tag =
      guarded
        (is_null session_key32 || is_null out_nonce || is_null out_ciphertext || is_null out_tag)
        airdrop_err_crypto
        (encrypt_body session_key32 plaintext plaintext_len out_nonce out_ciphertext out_tag)

  pub decrypt_body : Pointer → Pointer → ℕ → Pointer → ℕ → Pointer → ℕ → Pointer → Calls (Unit {0})
  unfolding hand_out
  decrypt_body session_key32 nonce nonce_len ciphertext ciphertext_len tag tag_len out_plaintext =
      do
        key ← reading (load session_key32 32)
        enc_nonce ← reading (load nonce nonce_len)
        enc_ciphertext ← reading (load ciphertext ciphertext_len)
        enc_tag ← reading (load tag tag_len)
        let enc : EncryptedChunk = record {
          nonce = enc_nonce;
          ciphertext = enc_ciphertext;
          tag = enc_tag;
        }
        text ← on_ssl (decrypt_chunk lib key enc)
        hand_out out_plaintext text

  pub airdrop_decrypt_chunk :
      Pointer → Pointer → ℕ → Pointer → ℕ → Pointer → ℕ → Pointer → Calls AirdropStatus
  unfolding guarded decrypt_body
  airdrop_decrypt_chunk session_key32 nonce nonce_len ciphertext ciphertext_len tag tag_len
        out_plaintext =
      guarded (is_null session_key32 || is_null out_plaintext) airdrop_err_crypto (
        decrypt_body session_key32 nonce nonce_len ciphertext ciphertext_len tag tag_len
          out_plaintext)

  sha256_body : FileSystem → Pointer → Pointer → Calls (Unit {0})
  sha256_body disk path out_digest32 = do
    name ← reading (load_string path)
    digest ← on_ssl (sha256_file lib disk name)
    on_memory (copy_to out_digest32 digest)

  pub airdrop_sha256_file : FileSystem → Pointer → Pointer → Calls AirdropStatus
  unfolding guarded sha256_body
  airdrop_sha256_file disk path out_digest32 =
      guarded (is_null path || is_null out_digest32) airdrop_err_io
        (sha256_body disk path out_digest32)

  module _ (pkey : PkeyCalls lib.World) where
    generate_body : Pointer → Pointer → Calls (Unit {0})
    generate_body out_public32 out_private32 = do
      kp ← on_ssl (generate_key_pair pkey)
      on_memory (copy_to out_public32 kp.public_key)
      on_memory (copy_to out_private32 kp.private_key)

    pub airdrop_generate_keypair : Pointer → Pointer → Calls AirdropStatus
    unfolding guarded generate_body
    airdrop_generate_keypair out_public32 out_private32 =
        guarded (is_null out_public32 || is_null out_private32) airdrop_err_crypto
          (generate_body out_public32 out_private32)

    derive_body : Pointer → Pointer → Pointer → Pointer → Calls (Unit {0})
    derive_body my_private32 peer_public32 info out_session_key32 = do
      priv ← reading (load my_private32 32)
      peer ← reading (load peer_public32 32)
      context ← reading (load_string info)
      session ← on_ssl (derive_session_key pkey priv peer context)
      on_memory (copy_to out_session_key32 session)

    pub airdrop_derive_session_key : Pointer → Pointer → Pointer → Pointer → Calls AirdropStatus
    unfolding guarded derive_body
    airdrop_derive_session_key my_private32 peer_public32 info out_session_key32 =
        guarded
          (is_null my_private32
            || is_null peer_public32
            || is_null info
            || is_null out_session_key32)
          airdrop_err_crypto (derive_body my_private32 peer_public32 info out_session_key32)
