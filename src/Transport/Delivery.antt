-- ===== src/Transport/Delivery.antt =====
-- What two transports that are connected deliver to one another.
use off_drop.Base.{ℕ, zero, suc, ◌≡◌, ◌≢◌, refl, ap, sym, ◌∙◌, [], ◌∷◌, get_elem?, Option, some}
use off_drop.Protocol.{Bytes}
use off_drop.Transport.{
  Handler, LoopbackTransport, Store, connect_peers, set_on_data_received, send, call_peer, update,
}

module _ {S : Type 0} where
  get_elem?-update :
      (i : ℕ) (change : LoopbackTransport S → LoopbackTransport S) (store : Store S)
      {t : LoopbackTransport S}
      → get_elem? store i ≡ some t
      → get_elem? (update i change store) i ≡ some (change t)
  unfolding update
  get_elem?-update i change [] e = cc
  get_elem?-update zero change (t ∷ store) e = cc
  get_elem?-update (suc i) change (t ∷ store) e = get_elem?-update i change store e

  get_elem?-update_other :
      (i j : ℕ) (change : LoopbackTransport S → LoopbackTransport S) (store : Store S)
      → i ≢ j
      → get_elem? (update i change store) j ≡ get_elem? store j
  unfolding update
  get_elem?-update_other i j change [] ne = refl
  get_elem?-update_other zero zero change (t ∷ store) ne = absurd (ne refl)
  get_elem?-update_other zero (suc j) change (t ∷ store) ne = refl
  get_elem?-update_other (suc i) zero change (t ∷ store) ne = refl
  get_elem?-update_other (suc i) (suc j) change (t ∷ store) ne =
      get_elem?-update_other i j change store (λ e. ne (ap suc e))

  send-linked :
      (store : Store S) (i p : ℕ) (id : Bytes) (own : Option (Handler S)) (peer_id : Bytes)
      (back : Option ℕ) (h : Handler S) (to bytes : Bytes)
      → get_elem? store i ≡ some (record { self_id = id; peer = some p; on_data = own })
      → get_elem? store p ≡ some (record { self_id = peer_id; peer = back; on_data = some h })
      → send store i to bytes ≡ h id bytes
  unfolding send
  send-linked store i p id own peer_id back h to bytes e k = rw (e, send) (rw (k, call_peer) refl)

  -- After two transports are connected, and one is given a handler, what the other sends is what the
  -- handler is called with, under the sender's name, whatever was there before.
  pub send-connect_peers :
      (store : Store S) (a b : ℕ) (alice bob : LoopbackTransport S) (handler : Handler S)
      (to bytes : Bytes)
      → get_elem? store a ≡ some alice
      → get_elem? store b ≡ some bob
      → a ≢ b
      → send (set_on_data_received b (some handler) (connect_peers a b store)) a to bytes
        ≡ handler alice.self_id bytes
  send-connect_peers store a b alice bob handler to bytes ea eb ne =
      send-linked _ a b alice.self_id alice.on_data bob.self_id (some a) handler to bytes sender
        receiver
    where
      linked : Store S
      linked = update a (λ t. record t { peer = some b }) store

      sender :
          get_elem? (set_on_data_received b (some handler) (connect_peers a b store)) a
          ≡ some (record alice { peer = some b })
      sender =
          unfold set_on_data_received connect_peers in
          get_elem?-update_other b a _ _ (λ e. ne (sym e))
          ∙ get_elem?-update_other b a _ linked (λ e. ne (sym e))
          ∙ get_elem?-update a _ store ea

      receiver :
          get_elem? (set_on_data_received b (some handler) (connect_peers a b store)) b
          ≡ some (record bob { peer = some a; on_data = some handler })
      receiver =
          unfold set_on_data_received connect_peers in
          get_elem?-update b _ _
            (get_elem?-update b _ linked (get_elem?-update_other a b _ store ne ∙ eb))
