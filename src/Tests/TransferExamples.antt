-- ===== src/Tests/TransferExamples.antt =====
-- core/include/transport.hpp and the transfers of core/tests/test_chunking_e2e.cpp at a file of three
-- bytes, over the library of Tests/Toy.antt.
use off_drop.Protocol.{Bytes}
use off_drop.Transport.{LoopbackTransport}
use off_drop.Base.{none}
use off_drop.Base.{zero, suc, ◌≡◌, refl, arith, List, [], ◌∷◌, length, true, some}
use off_drop.Base.Result.{ok}
use off_drop.Protocol.{ChunkPayload}
use off_drop.Files.{open_in}
use off_drop.Chunking.{
  Machine, FileReceiver, prepare_file_offer, file_receiver, send_file_chunks, is_complete,
  verify_integrity,
}
use off_drop.Base.{ℕ, suc, Bool}
use off_drop.Base.Result.{Result}
use off_drop.Base.Action.{◌>>◌}
use off_drop.Transport.{Handler}
use off_drop.Transport.Interface.{
  loopback_operations, send_each, take_each, calling, told, loopback_operations-delivers,
}
use off_drop.Chunking.Assembly.{receive_all}
use off_drop.Chunking.Collect.{collect}
use off_drop.Chunking.Offer.{offer_of}
use off_drop.Transport.{set_on_data_received, connect_peers}
use off_drop.Tests.Toy.{toy_ssl, toy_standard, toy-Documented}
use off_drop.Tests.FileData.{
  key, source_path, output_path, three_bytes, machine, three_bytes-IsByte, sendable, source_content,
  source_opens, writable,
}
use off_drop.Base.{subst}
use off_drop.EndToEnd.Reorder.{Stands, receive_all-shuffled}

-- The first two chunks change places.
abbrev swap : List ChunkPayload → List ChunkPayload
swap [] = []
swap (c ∷ []) = c ∷ []
swap (c ∷ d ∷ chunks) = d ∷ c ∷ chunks

swap-swap : (chunks : List ChunkPayload) → swap (swap chunks) ≡ chunks
swap-swap [] = refl
swap-swap (c ∷ []) = refl
swap-swap (c ∷ d ∷ chunks) = refl

swap-Stands :
    (chunks : List ChunkPayload) (c : ChunkPayload) → Stands c chunks → Stands c (swap chunks)
swap-Stands [] c (i, here) = (i, here)
swap-Stands (d ∷ []) c (i, here) = (i, here)
swap-Stands (d ∷ e ∷ chunks) c (zero, here) = (1, here)
swap-Stands (d ∷ e ∷ chunks) c (suc zero, here) = (0, here)
swap-Stands (d ∷ e ∷ chunks) c (suc (suc i), here) = (suc (suc i), here)

swap-Stands_back :
    (chunks : List ChunkPayload) (c : ChunkPayload) → Stands c (swap chunks) → Stands c chunks
swap-Stands_back chunks c h = subst (Stands c) (swap-swap chunks) (swap-Stands (swap chunks) c h)

receive_all-shuffled_example :
    let offer = offer_of toy_standard source_path three_bytes in
    (m1 m2 m3 m4 m5 : Machine toy_ssl) × (chunks : List ChunkPayload) × (r r' : FileReceiver)
    × (prepare_file_offer toy_ssl source_path machine ≡ (ok offer, m1))
    × (send_file_chunks toy_ssl key (collect toy_ssl) source_path (m1, []) ≡ (ok tt, (m2, chunks)))
    × (length chunks ≡ offer.total_chunks)
    × (file_receiver toy_ssl output_path offer.file_size offer.total_chunks offer.sha256 m2
        ≡ (ok r, m3))
    × (receive_all toy_ssl key (swap chunks) (m3, r) ≡ (ok tt, (m4, r')))
    × (is_complete r' ≡ true)
    × (open_in m4.disk output_path ≡ some three_bytes)
    × (verify_integrity toy_ssl r' m4 ≡ (ok true, m5))
receive_all-shuffled_example =
    receive_all-shuffled toy_ssl toy_standard toy-Documented key three_bytes source_path output_path
      machine swap sendable three_bytes-IsByte source_content source_opens refl writable
      swap-Stands_back swap-Stands

abbrev count_messages : Handler ℕ
count_messages from bytes n = (ok tt, suc n)

abbrev start_count : Bool → ℕ → Result (Unit {0}) × ℕ
start_count success n = (ok tt, 0)

abbrev end : Bytes → LoopbackTransport ℕ
end self_id = record { self_id = self_id; peer = none; on_data = none }

loopback_operations-delivers_example :
    let store = end (b'a' ∷ []) ∷ end (b'b' ∷ []) ∷ [] in
    let a = loopback_operations {S = ℕ} 0 in
    let b = loopback_operations {S = ℕ} 1 in
    (b.on_data_received (some count_messages)
        >> (a.connect [] (some start_count) >> send_each a [] (three_bytes ∷ three_bytes ∷ [])))
      (connect_peers 0 1 store, 7)
    ≡ calling
        (told true (some start_count)
          >> take_each count_messages (b'a' ∷ []) (three_bytes ∷ three_bytes ∷ []))
        (set_on_data_received 1 (some count_messages) (connect_peers 0 1 store), 7)
loopback_operations-delivers_example =
    loopback_operations-delivers (end (b'a' ∷ []) ∷ end (b'b' ∷ []) ∷ []) 0 1 (end (b'a' ∷ []))
      (end (b'b' ∷ [])) count_messages [] refl refl (λ e. absurd (omega (arith, e)))
      (some start_count) (three_bytes ∷ three_bytes ∷ []) 7
