-- ===== src/Transport.antt =====
-- `LoopbackTransport` of core/include/transport.hpp. The transports live in a store, and a pointer to
-- one is its place there. A handler works on a state `S` of its own; the handlers that the program
-- installs do not change the transports.
pub mod Delivery
pub mod Interface
pub mod Bluetooth
use off_drop.Base.{ℕ, zero, suc, List, [], ◌∷◌, get_elem?, Option, none, some}
use off_drop.Base.Result.{ok, fault}
use off_drop.Base.Action.{Action, pure, lift}
use off_drop.Protocol.{Bytes}

abbrev pub Handler : Type 0 → Type 0
Handler S = Bytes → Bytes → Action S (Unit {0})

pub record LoopbackTransport (S : Type 0) : Type 0 where
  pub self_id : Bytes
  pub peer : Option ℕ
  pub on_data : Option (Handler S)

abbrev pub Store : Type 0 → Type 0
Store S = List (LoopbackTransport S)

module _ {S : Type 0} where
  -- The constructor.
  pub loopback_transport : Bytes → LoopbackTransport S
  loopback_transport self_id = record { self_id = self_id; peer = none; on_data = none }

  -- A change of one transport. There is none outside of the store.
  pub update : ℕ → (LoopbackTransport S → LoopbackTransport S) → Store S → Store S
  update i change [] = []
  update zero change (t ∷ store) = change t ∷ store
  update (suc i) change (t ∷ store) = t ∷ update i change store

  pub set_on_data_received : ℕ → Option (Handler S) → Store S → Store S
  unfolding update
  set_on_data_received i cb = update i (λ transport. record transport { on_data = cb })

  -- `a.peer_ = &b; b.peer_ = &a;`
  pub connect_peers : ℕ → ℕ → Store S → Store S
  unfolding update
  connect_peers a b store =
      update b (λ transport. record transport { peer = some a })
        (update a (λ transport. record transport { peer = some b }) store)

  -- `if (peer_ && peer_->on_data_) peer_->on_data_(self_id_, data);` The name of the receiver, which
  -- `Send` is given, is not read. A pointer to no transport is undefined.
  call_handler : Option (Handler S) → Bytes → Bytes → Action S (Unit {0})
  call_handler none self_id bytes = pure tt
  call_handler (some on_data) self_id bytes = on_data self_id bytes

  call_peer : Option (LoopbackTransport S) → Bytes → Bytes → Action S (Unit {0})
  unfolding call_handler
  call_peer none self_id bytes = lift fault
  call_peer (some peer) self_id bytes = call_handler peer.on_data self_id bytes

  send_from : Store S → Option ℕ → Bytes → Bytes → Action S (Unit {0})
  unfolding call_peer
  send_from store none self_id bytes = pure tt
  send_from store (some p) self_id bytes = call_peer (get_elem? store p) self_id bytes

  pub send : Store S → ℕ → Bytes → Bytes → Action S (Unit {0})
  unfolding send_from
  send store i peer_id bytes = elim (get_elem? store i) [
    | none ↦ lift fault
    | some self ↦ send_from store self.peer self.self_id bytes
  ]
