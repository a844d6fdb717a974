-- ===== src/Daemon/Main.antt =====
-- cmd/daemon/main.go: the run of the daemon, which goes once through the C interface. What it
-- prints is left out, and `log.Fatal` ends the run as an exception does.
use off_drop.Base.{[], ◌∷◌, not}
use off_drop.Base.Result.{throw_if, err, log_fatal}
use off_drop.Base.Action.{pure, lift, ◌>>=◌, ◌>>◌}
use off_drop.Protocol.{Bytes}
use off_drop.Files.{FileSystem, bytes_eq}
use off_drop.OpenSsl.{OpenSsl}
use off_drop.KeyAgreement.{PkeyCalls}
use off_drop.Memory.{Malloc}
use off_drop.Daemon.{
  Go, Returned, value, failed, encrypt_chunk, decrypt_chunk, sha256_file, generate_key_pair,
  derive_session_key,
}

-- "airdrop-session-v1"
abbrev pub session_info : Bytes
session_info =
    b'a' ∷ b'i' ∷ b'r' ∷ b'd' ∷ b'r' ∷ b'o' ∷ b'p' ∷ b'-' ∷ b's' ∷ b'e' ∷ b's' ∷ b's' ∷ b'i' ∷ b'o'
    ∷ b'n' ∷ b'-' ∷ b'v' ∷ b'1' ∷ []

-- The text of the test, in UTF-8.
abbrev pub test_text : Bytes
test_text =
    208 ∷ 191 ∷ 209 ∷ 128 ∷ 208 ∷ 184 ∷ 208 ∷ 178 ∷ 208 ∷ 181 ∷ 209 ∷ 130 ∷ 44 ∷ 32 ∷ 209 ∷ 141
    ∷ 209 ∷ 130 ∷ 208 ∷ 190 ∷ 32 ∷ 209 ∷ 130 ∷ 208 ∷ 181 ∷ 209 ∷ 129 ∷ 209 ∷ 130 ∷ 208 ∷ 190 ∷ 208
    ∷ 178 ∷ 209 ∷ 139 ∷ 208 ∷ 185 ∷ 32 ∷ 209 ∷ 135 ∷ 208 ∷ 176 ∷ 208 ∷ 189 ∷ 208 ∷ 186 ∷ 32 ∷ 209
    ∷ 132 ∷ 208 ∷ 176 ∷ 208 ∷ 185 ∷ 208 ∷ 187 ∷ 208 ∷ 176 ∷ []

module _ (lib : OpenSsl) (malloc : Malloc) where
  -- `if err != nil { log.Fatalf(...) }`
  unfoldable pub must : {A : Type 0} → Returned A → Go lib malloc A
  must (value a) = pure a
  must (failed status) = lift (err log_fatal)

  unfoldable pub main : PkeyCalls lib.World → FileSystem → Bytes → Go lib malloc (Unit {0})
  unfolding must
  main pkey disk self_path = do
    alice_made ← generate_key_pair lib malloc pkey
    alice ← must alice_made
    bob_made ← generate_key_pair lib malloc pkey
    bob ← must bob_made
    alice_derived ← derive_session_key lib malloc pkey alice.private_key bob.public_key session_info
    session_alice ← must alice_derived
    bob_derived ← derive_session_key lib malloc pkey bob.private_key alice.public_key session_info
    session_bob ← must bob_derived
    lift (throw_if (not (bytes_eq session_alice session_bob)) log_fatal)
    encrypted ← encrypt_chunk lib malloc session_alice test_text
    enc ← must encrypted
    opened ← decrypt_chunk lib malloc session_bob enc
    decrypted ← must opened
    lift (throw_if (not (bytes_eq decrypted test_text)) log_fatal)
    digest ← sha256_file lib malloc disk self_path
    pure tt
