-- ===== src/EndToEnd/Transfer.antt =====
-- The whole transfer of core/tests/test_chunking_e2e.cpp: offer, receiver, chunks over the
-- transports, and the checks at the end.
use off_drop.Base.{ℕ, suc, ◌<◌, ◌≡◌, ◌≢◌, ◌∙◌, subst, arith}
use off_drop.Base.{All, get_elem?, true, some}
use off_drop.Base.Result.{ok}
use off_drop.Protocol.{Bytes, IsByte, ChunkPayload}
use off_drop.Files.{IsWritable, open_in}
use off_drop.OpenSsl.{OpenSsl}
use off_drop.OpenSsl.Documented.{Standard, Documented}
use off_drop.Chunking.{
  Machine, FileReceiver, prepare_file_offer, file_receiver, send_file_chunks, receive_chunk,
}
use off_drop.Chunking.Blocks.{IsSendable}
use off_drop.Chunking.Receiving.{IsReceiving, receive_chunk-Received}
use off_drop.Chunking.Opening.{file_receiver-IsReceiving}
use off_drop.Chunking.Transfer.{is_complete-full, IsIntact, is_complete-IsIntact}
use off_drop.Chunking.Sending.{IsSent, send_file_chunks_ends}
use off_drop.Chunking.Offer.{offer_of, prepare_file_offer-offer_of}
use off_drop.Transport.{Store, LoopbackTransport, set_on_data_received, connect_peers}
use off_drop.EndToEnd.{on_chunk_message, send_chunk_message}
use off_drop.EndToEnd.Wire.{send_chunk_message-receive}
use native.Mathlib.Decide.{ℕ_discrete}

-- The first `i` chunks of the file have come.
record HasFirst (lib : OpenSsl) (file dst sha : Bytes) (i : ℕ) (s : Machine lib × FileReceiver)
    : Type 0 where
  d : Bytes
  receiving : IsReceiving file s.0.disk s.1 d
  path : s.1.output_path ≡ dst
  hash : s.1.expected_sha256 ≡ sha
  first : (j : ℕ) → j < i → get_elem? s.1.received_mask j ≡ some true

module _ (lib : OpenSsl) (key file dst sha : Bytes) (sendable : IsSendable file) where
  receive-HasFirst :
      (i : ℕ) (c : ChunkPayload) (s : Machine lib × FileReceiver)
      → IsSent lib key file i c
      → HasFirst lib file dst sha i s
      → (s' : Machine lib × FileReceiver) × (receive_chunk lib key c s ≡ (ok tt, s'))
        × HasFirst lib file dst sha (suc i) s'
  receive-HasFirst i c (m, r) sent v =
      let (m', r', d', done, one) =
        receive_chunk-Received lib key file sendable c m r v.d sent.genuine v.receiving in
      (
        (m', r'),
        done,
        record {
          d = d';
          receiving = one.receiving;
          path = one.offer.output_path ∙ v.path;
          hash = one.offer.expected_sha256 ∙ v.hash;
          first = λ j h. elim (ℕ_discrete c.chunk_index j) [
            | yes e ↦ subst (λ t. get_elem? r'.received_mask t ≡ some true) e one.here
            | no ne ↦ one.kept j ne ∙ v.first j (omega (arith, sent.index))
          ];
        },
      )

  HasFirst-quiet :
      (i : ℕ) (m : Machine lib) (r : FileReceiver) (w : lib.World)
      → HasFirst lib file dst sha i (m, r)
      → HasFirst lib file dst sha i (record m { ssl = w }, r)
  HasFirst-quiet i m r w v = record {
    d = v.d;
    receiving = v.receiving;
    path = v.path;
    hash = v.hash;
    first = v.first;
  }

module _ (lib : OpenSsl) (std : Standard) (doc : Documented lib std) where
  -- A file that is offered, received into another file, and sent chunk by chunk over two connected
  -- transports arrives intact: each call returns, the receiver is complete, the output file holds
  -- the file's bytes, and `verify_integrity` confirms its hash. The file is of bytes, is below 32
  -- TB and can be opened, the output path is another, which may be read and takes each write whole,
  -- the transports are two, and the library keeps to its manual.
  pub send_file_chunks-IsIntact :
      (key file src dst to : Bytes) (m : Machine lib) (store : Store (Machine lib × FileReceiver))
      → (a b : ℕ) (alice bob : LoopbackTransport (Machine lib × FileReceiver)) → IsSendable file
      → All IsByte file
      → m.disk.content src ≡ some file
      → open_in m.disk src ≡ some file
      → dst ≢ src
      → m.disk.can_read dst ≡ true
      → IsWritable m.disk dst
      → get_elem? store a ≡ some alice
      → get_elem? store b ≡ some bob
      → a ≢ b
      → let linked =
          set_on_data_received b (some (on_chunk_message lib key)) (connect_peers a b store) in
        let offer = offer_of std src file in
        (m1 m2 : Machine lib) × (r : FileReceiver) × (s : Machine lib × FileReceiver)
        × (prepare_file_offer lib src m ≡ (ok offer, m1))
        × (file_receiver lib dst offer.file_size offer.total_chunks offer.sha256 m1 ≡ (ok r, m2))
        × (send_file_chunks lib key (send_chunk_message lib linked a to) src (m2, r) ≡ (ok tt, s))
        × IsIntact lib file dst s
  send_file_chunks-IsIntact key file src dst to m store a b alice bob sendable bytes there opened ne
        readable writable ea eb apart =
      let sha = std.sha256 file in
      let (w1, offered) = prepare_file_offer-offer_of lib std doc src file m there opened in
      let m1 : Machine lib = record m { ssl = w1 } in
      let (r, m2, d, made, v, path, hash, never, beside) =
        file_receiver-IsReceiving lib file dst sha m1 sendable readable writable in
      let start : HasFirst lib file dst sha 0 (m2, r) = record {
        receiving = v;
        path = path;
        hash = hash;
        d = d;
        first = λ j h. absurd (omega (arith, h));
      } in
      let linked =
        set_on_data_received b (some (on_chunk_message lib key)) (connect_peers a b store) in
      let (s, sent, v') =
        send_file_chunks_ends lib std doc key file sendable bytes
          (send_chunk_message lib linked a to) (HasFirst lib file dst sha)
          (HasFirst-quiet lib key file dst sha sendable)
          (λ i c s one p.
            let (s', done, q) = receive-HasFirst lib key file dst sha sendable i c s one p in
            (
              s',
              send_chunk_message-receive lib key c (one.wire, one.short) store a b alice bob to ea
                    eb apart s
                  ∙ done,
              q,
            ))
          src m2 r (beside src ne ∙ opened) start in
      (
        m1,
        m2,
        r,
        s,
        offered,
        made,
        sent,
        is_complete-IsIntact lib std doc file dst sendable s.0 s.1 v'.d v'.receiving v'.path v'.hash
            ((is_complete-full file s.0.disk s.1 v'.d v'.receiving).1 v'.first),
      )
