-- ===== src/Transport/Interface.antt =====
-- `ITransport` of core/include/transport.hpp, which core code works through, and
-- `LoopbackTransport` as one of its implementations. An operation works on a state `W`, and the
-- callbacks on the program's own state `S`.
use off_drop.Base.{ℕ, ◌≡◌, ◌≢◌, refl, List, [], ◌∷◌, get_elem?, Option, none, some, Bool, true}
use off_drop.Base.Result.{Result, ok, err, fault}
use off_drop.Base.Action.{Action, pure, ◌>>◌}
use off_drop.Base.Action
use off_drop.Protocol.{Bytes}
use off_drop.Transport.{
  Handler, LoopbackTransport, Store, connect_peers, set_on_data_received, send,
}
use off_drop.Transport.Delivery.{send-connect_peers}
use mathlib.Core.Int.{ℤ}

pub record PeerInfo : Type 0 where
  pub id : Bytes
  pub display_name : Bytes
  pub rssi : ℤ

-- A callback may be empty.
pub record ITransport (W S : Type 0) : Type 0 where
  pub start_advertising : Bytes → Action W (Unit {0})
  pub stop_advertising : Action W (Unit {0})
  pub start_scanning : Option (PeerInfo → Action S (Unit {0})) → Action W (Unit {0})
  pub stop_scanning : Action W (Unit {0})
  pub connect : Bytes → Option (Bool → Action S (Unit {0})) → Action W (Unit {0})
  pub disconnect : Bytes → Action W (Unit {0})
  pub send_bytes : Bytes → Bytes → Action W (Unit {0})
  pub on_data_received : Option (Handler S) → Action W (Unit {0})

-- The transports, and the program's state.
abbrev pub Linked : Type 0 → Type 0
Linked S = Store S × S

module _ {S : Type 0} where
  -- A callback runs on the program's state.
  unfoldable pub calling : {W : Type 0} → Action S (Unit {0}) → Action (W × S) (Unit {0})
  calling call (w, s) = let (r, s') = call s in (r, (w, s'))

  -- `if (on_result) on_result(true);`
  unfoldable report_success : Option (Bool → Action S (Unit {0})) → Action S (Unit {0})
  report_success none = pure tt
  report_success (some on_result) = on_result true

  -- The operations of the loopback transport at a place of the store.
  pub loopback_operations : ℕ → ITransport (Linked S) S
  unfolding calling report_success
  loopback_operations i = record {
    start_advertising = λ device_name. pure tt;
    stop_advertising = pure tt;
    start_scanning = λ on_peer_found. pure tt;
    stop_scanning = pure tt;
    connect = λ peer_id on_result. calling (report_success on_result);
    disconnect = λ peer_id. pure tt;
    send_bytes = λ peer_id bytes (store, s). calling (send store i peer_id bytes) (store, s);
    on_data_received = λ cb (store, s). (ok tt, (set_on_data_received i cb store, s));
  }

  -- A caller that gave a callback is told a value, and another one is not.
  abbrev pub told : {A : Type 0} → A → Option (A → Action S (Unit {0})) → Action S (Unit {0})
  told value none = pure tt
  told value (some callback) = callback value

  report_success-told :
      (on_result : Option (Bool → Action S (Unit {0})))
      → report_success on_result ≡ told true on_result
  unfolding report_success
  report_success-told none = refl
  report_success-told (some on_result) = refl

  -- What a program does with a transport: it connects to a peer and sends blocks to it, one after the
  -- other.
  pub send_each : {W : Type 0} → ITransport W S → Bytes → List Bytes → Action W (Unit {0})
  send_each transport to [] = pure tt
  send_each transport to (bytes ∷ blocks) =
      transport.send_bytes to bytes >> send_each transport to blocks

  -- What the other end's handler is called with: each block, whole and in order.
  unfoldable pub take_each : Handler S → Bytes → List Bytes → Action S (Unit {0})
  take_each handler from [] = pure tt
  take_each handler from (bytes ∷ blocks) = handler from bytes >> take_each handler from blocks

  -- Two callbacks one after the other, where the second is called as `onward`.
  pub calling_then :
      {W : Type 0} (call rest : Action S (Unit {0})) (onward : Action (W × S) (Unit {0}))
      (store : W) (s : S)
      → ((t : S) → onward (store, t) ≡ calling rest (store, t))
      → (calling call >> onward) (store, s) ≡ calling (call >> rest) (store, s)
  unfolding calling
  calling_then call rest onward store s same = by_result (call s)
    where
      by_result :
          (x : Result (Unit {0}) × S)
          → Action.continue (x.0, (store, x.1)) (λ _. onward)
            ≡ (let (r, t) = Action.continue x (λ _. rest) in (r, (store, t)))
      by_result (ok done, t) = same t
      by_result (err e, t) = refl
      by_result (fault, t) = refl

  module _ (store : Store S) (a b : ℕ) (alice bob : LoopbackTransport S) (handler : Handler S)
      (to : Bytes) (ea : get_elem? store a ≡ some alice) (eb : get_elem? store b ≡ some bob)
      (ne : a ≢ b) where
    abbrev linked : Store S
    linked = set_on_data_received b (some handler) (connect_peers a b store)

    send_each-linked :
        (blocks : List Bytes) (s : S)
        → send_each (loopback_operations a) to blocks (linked, s)
          ≡ calling (take_each handler alice.self_id blocks) (linked, s)
    unfolding send_each take_each loopback_operations
    send_each-linked [] s = unfold calling in refl
    send_each-linked (bytes ∷ blocks) s =
        rw (send-connect_peers store a b alice bob handler to bytes ea eb ne) (
          calling_then (handler alice.self_id bytes) (take_each handler alice.self_id blocks)
            (send_each (loopback_operations a) to blocks) linked s (send_each-linked blocks))

    -- Once two transports are connected, a handler is installed at one through the interface, the
    -- other connects and sends blocks one after the other: this calls the caller's result
    -- callback, where there is one, once and with true, and is then the same as calling the handler
    -- with each block, whole, in order, and once, under the sender's name; an exception of a callback
    -- stops it. The transports are two.
    pub loopback_operations-delivers :
        (on_result : Option (Bool → Action S (Unit {0}))) (blocks : List Bytes) (s : S)
        → ((loopback_operations b).on_data_received (some handler)
              >> ((loopback_operations a).connect to on_result
                  >> send_each (loopback_operations a) to blocks))
            (connect_peers a b store, s)
          ≡ calling (told true on_result >> take_each handler alice.self_id blocks) (linked, s)
    unfolding loopback_operations
    loopback_operations-delivers on_result blocks s = rw (report_success-told on_result) (
        calling_then (told true on_result) (take_each handler alice.self_id blocks)
          (send_each (loopback_operations a) to blocks) linked s (send_each-linked blocks))
