-- ===== src/EndToEnd/Session.antt =====
-- EndToEnd_SmallFileTransfersIntact of core/tests/test_chunking_e2e.cpp as a whole, for any file: the
-- keys, the session key at each end, and the transfer.
use off_drop.Base.{ℕ, ◌≤◌, ◌≡◌, ◌≢◌, refl, length, All, get_elem?, true, some}
use off_drop.Base.Result.{ok}
use off_drop.Protocol.{Bytes, IsByte}
use off_drop.Files.{IsWritable, open_in}
use off_drop.OpenSsl.{OpenSsl}
use off_drop.OpenSsl.Documented.{Standard, Documented}
use off_drop.KeyAgreement.{PkeyCalls, KeyPair, generate_key_pair, derive_session_key}
use off_drop.KeyAgreement.Documented.{KeyStandard, KeyDocumented}
use off_drop.KeyAgreement.Agreement.{
  generate_key_pair-IsPair, derive_session_key-IsPair, session_of, session_of_swap,
}
use off_drop.Chunking.{Machine, FileReceiver, prepare_file_offer, file_receiver, send_file_chunks}
use off_drop.Chunking.Blocks.{IsSendable}
use off_drop.Chunking.Offer.{offer_of}
use off_drop.Chunking.Transfer.{IsIntact}
use off_drop.Transport.{Store, LoopbackTransport, set_on_data_received, connect_peers}
use off_drop.EndToEnd.{on_chunk_message, send_chunk_message}
use off_drop.EndToEnd.Transfer.{send_file_chunks-IsIntact}

module _ (lib : OpenSsl) (std : Standard) (doc : Documented lib std) (pkey : PkeyCalls lib.World)
    (key_std : KeyStandard) (key_doc : KeyDocumented pkey key_std) where
  -- Two new pairs of keys, as a library makes them that keeps to its manuals.
  two_ends :
      (info : Bytes) (w : lib.World)
      → length info ≤ 1024
      → (alice bob : KeyPair) × (session : Bytes) × (w1 w2 w3 w4 : lib.World) × (generate_key_pair
            pkey w
          ≡ (ok alice, w1))
        × (generate_key_pair pkey w1 ≡ (ok bob, w2))
        × (derive_session_key pkey alice.private_key bob.public_key info w2 ≡ (ok session, w3))
        × (derive_session_key pkey bob.private_key alice.public_key info w3 ≡ (ok session, w4))
  two_ends info w short =
      let (alice, w1, made1, p) = generate_key_pair-IsPair pkey key_std key_doc w in
      let (bob, w2, made2, q) = generate_key_pair-IsPair pkey key_std key_doc w1 in
      let (w3, mine) = derive_session_key-IsPair pkey key_std key_doc alice bob info w2 p q short in
      let (w4, yours) =
        derive_session_key-IsPair pkey key_std key_doc bob alice info w3 q p short in
      let swapped = session_of_swap pkey key_std key_doc alice bob info in
      (
        alice,
        bob,
        session_of pkey key_std key_doc alice bob info,
        w1,
        w2,
        w3,
        w4,
        made1,
        made2,
        mine,
        rw (← swapped) yours,
      )

  -- Two ends make their keys, each derives its session key from its private key and the other's
  -- public key, and a file that one end offers and sends under its key over two connected
  -- transports arrives intact at the other, which opens the chunks with its own: every call
  -- returns, the receiver is complete, the output file holds the file's bytes, and
  -- `verify_integrity` confirms its hash. The file is of bytes, is below 32 TB and can be opened,
  -- the output path is another, which may be read and takes each write whole, the info has up to
  -- 1024 bytes, the transports are two, and the libraries keep to their manuals.
  pub transfer-IsIntact :
      (info file src dst to : Bytes) (m : Machine lib) (store : Store (Machine lib × FileReceiver))
      → (a b : ℕ) (alice_transport bob_transport : LoopbackTransport (Machine lib × FileReceiver))
      → length info ≤ 1024
      → IsSendable file
      → All IsByte file
      → m.disk.content src ≡ some file
      → open_in m.disk src ≡ some file
      → dst ≢ src
      → m.disk.can_read dst ≡ true
      → IsWritable m.disk dst
      → get_elem? store a ≡ some alice_transport
      → get_elem? store b ≡ some bob_transport
      → a ≢ b
      → let offer = offer_of std src file in
        (alice bob : KeyPair) × (alice_session bob_session : Bytes) × (w1 w2 w3 w4 : lib.World)
        × (m1 m2 : Machine lib) × (r : FileReceiver) × (s : Machine lib × FileReceiver)
        × (generate_key_pair pkey m.ssl ≡ (ok alice, w1))
        × (generate_key_pair pkey w1 ≡ (ok bob, w2))
        × (derive_session_key pkey alice.private_key bob.public_key info w2
            ≡ (ok alice_session, w3))
        × (derive_session_key pkey bob.private_key alice.public_key info w3 ≡ (ok bob_session, w4))
        × (alice_session ≡ bob_session)
        × (prepare_file_offer lib src (record m { ssl = w4 }) ≡ (ok offer, m1))
        × (file_receiver lib dst offer.file_size offer.total_chunks offer.sha256 m1 ≡ (ok r, m2))
        × (let linked =
              set_on_data_received b
                (some (on_chunk_message lib bob_session))
                (connect_peers a b store) in
            send_file_chunks lib alice_session (send_chunk_message lib linked a to) src (m2, r)
            ≡ (ok tt, s))
        × IsIntact lib file dst s
  transfer-IsIntact info file src dst to m store a b ta tb short sendable bytes there opened ne
        readable writable ea eb apart =
      let (alice, bob, session, w1, w2, w3, w4, made1, made2, mine, yours) =
        two_ends info m.ssl short in
      let (m1, m2, r, s, offered, made, sent, intact) =
        send_file_chunks-IsIntact lib std doc session file src dst to (record m { ssl = w4 }) store
          a b ta tb sendable bytes there opened ne readable writable ea eb apart in
      (
        alice, bob, session, session, w1, w2, w3, w4, m1, m2, r, s, made1, made2, mine, yours, refl,
        offered, made, sent, intact,
      )
