-- ===== src/Tests/SessionExamples.antt =====
-- EndToEnd_SmallFileTransfersIntact of core/tests/test_chunking_e2e.cpp from the key exchange on,
-- at a file of three bytes, over the libraries of Tests/Toy.antt and Tests/ToyKeys.antt.
use off_drop.Base.{ℕ, ◌≡◌, refl, arith, [], ◌∷◌, some}
use off_drop.Base.Result.{ok}
use off_drop.Protocol.{Bytes}
use off_drop.KeyAgreement.{KeyPair, generate_key_pair, derive_session_key}
use off_drop.Chunking.{Machine, FileReceiver, prepare_file_offer, file_receiver, send_file_chunks}
use off_drop.Chunking.Offer.{offer_of}
use off_drop.Chunking.Transfer.{IsIntact}
use off_drop.Transport.{loopback_transport, set_on_data_received, connect_peers}
use off_drop.EndToEnd.{on_chunk_message, send_chunk_message}
use off_drop.EndToEnd.Session.{transfer-IsIntact}
use off_drop.Tests.Toy.{toy_ssl, toy_standard, toy-Documented}
use off_drop.Tests.ToyKeys.{toy_pkey, toy_keys, toy_keys-KeyDocumented}
use off_drop.Tests.FileData.{
  source_path, output_path, three_bytes, machine, three_bytes-IsByte, sendable, source_content,
  source_opens, apart, transports, writable,
}

abbrev info : Bytes
info = b'v' ∷ b'1' ∷ []

transfer-IsIntact_example :
    let offer = offer_of toy_standard source_path three_bytes in
    (alice bob : KeyPair) × (alice_session bob_session : Bytes) × (w1 w2 w3 w4 : ℕ) × (m1
      m2 : Machine toy_ssl)
    × (r : FileReceiver) × (s : Machine toy_ssl × FileReceiver) × (generate_key_pair toy_pkey 0
        ≡ (ok alice, w1))
    × (generate_key_pair toy_pkey w1 ≡ (ok bob, w2))
    × (derive_session_key toy_pkey alice.private_key bob.public_key info w2
        ≡ (ok alice_session, w3))
    × (derive_session_key toy_pkey bob.private_key alice.public_key info w3 ≡ (ok bob_session, w4))
    × (alice_session ≡ bob_session)
    × (prepare_file_offer toy_ssl source_path (record machine { ssl = w4 }) ≡ (ok offer, m1))
    × (file_receiver toy_ssl output_path offer.file_size offer.total_chunks offer.sha256 m1
        ≡ (ok r, m2))
    × (let linked =
          set_on_data_received 1
            (some (on_chunk_message toy_ssl bob_session))
            (connect_peers 0 1 transports) in
        send_file_chunks toy_ssl alice_session
          (send_chunk_message toy_ssl linked 0 [])
          source_path
          (m2, r)
        ≡ (ok tt, s))
    × IsIntact toy_ssl three_bytes output_path s
transfer-IsIntact_example =
    transfer-IsIntact toy_ssl toy_standard toy-Documented toy_pkey toy_keys toy_keys-KeyDocumented
      info three_bytes source_path output_path [] machine transports 0 1
      (loopback_transport (b'a' ∷ [])) (loopback_transport (b'b' ∷ [])) (omega arith) sendable
      three_bytes-IsByte source_content source_opens apart refl writable refl refl
      (λ e. absurd (omega (arith, e)))
