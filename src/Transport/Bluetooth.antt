-- ===== src/Transport/Bluetooth.antt =====
-- The class BluetoothTransportAdapter of platform/macos/BluetoothBridge.mm: the callbacks that it
-- keeps for the events of CoreBluetooth. A callback works on the program's own state `S` and does not
-- call the adapter back. The requests to CoreBluetooth are still to be written in the source.
pub mod Entries
pub mod Pending
pub mod Operations
use off_drop.Base.{ℕ, List, [], ◌∷◌, Option, none, some, Bool, true, false, if◌then◌else◌}
use off_drop.Base.Result.{Result, ok, err, fault, bad_function_call}
use off_drop.Base.Action.{Action, pure, throw, ◌>>◌}
use off_drop.Protocol.{Bytes}
use off_drop.Files.{bytes_eq}
use off_drop.Transport.{Handler}
use off_drop.Transport.Interface.{PeerInfo, calling}

-- `std::function<void(bool)>`, which may be empty.
abbrev pub OnResult : Type 0 → Type 0
OnResult S = Option (Bool → Action S (Unit {0}))

-- The map of `pending_connect_callbacks_`, with one entry for a peer.
abbrev pub PendingMap : Type 0 → Type 0
PendingMap S = List (Bytes × OnResult S)

pub record BluetoothTransportAdapter (S : Type 0) : Type 0 where
  pub on_peer_found : Option (PeerInfo → Action S (Unit {0}))
  pub on_data_received : Option (Handler S)
  pub pending_connect_callbacks : PendingMap S

-- The adapter, and the program's state.
abbrev pub Adapted : Type 0 → Type 0
Adapted S = BluetoothTransportAdapter S × S

module _ {S : Type 0} where
  -- The constructor, which `init` of BluetoothBridge calls.
  pub bluetooth_transport_adapter : BluetoothTransportAdapter S
  bluetooth_transport_adapter = record {
    on_peer_found = none;
    on_data_received = none;
    pending_connect_callbacks = [];
  }

  pub find : Bytes → PendingMap S → Option (OnResult S)
  find peer_id [] = none
  find peer_id ((key, callback) ∷ entries) =
      if bytes_eq key peer_id then some callback else find peer_id entries

  -- `map[peer_id] = callback;`
  pub assign : Bytes → OnResult S → PendingMap S → PendingMap S
  assign peer_id callback [] = (peer_id, callback) ∷ []
  assign peer_id callback ((key, old) ∷ entries) =
      if bytes_eq key peer_id
      then (key, callback) ∷ entries
      else (key, old) ∷ assign peer_id callback entries

  pub erase : Bytes → PendingMap S → PendingMap S
  erase peer_id [] = []
  erase peer_id ((key, callback) ∷ entries) =
      if bytes_eq key peer_id then entries else (key, callback) ∷ erase peer_id entries

  pub start_scanning : Option (PeerInfo → Action S (Unit {0})) → Action (Adapted S) (Unit {0})
  start_scanning on_peer_found (adapter, s) =
      (ok tt, (record adapter { on_peer_found = on_peer_found }, s))

  pub set_on_data_received : Option (Handler S) → Action (Adapted S) (Unit {0})
  set_on_data_received cb (adapter, s) = (ok tt, (record adapter { on_data_received = cb }, s))

  pub connect : Bytes → OnResult S → Action (Adapted S) (Unit {0})
  unfolding assign
  connect peer_id on_result (adapter, s) =
      let entries = assign peer_id on_result adapter.pending_connect_callbacks in
      (ok tt, (record adapter { pending_connect_callbacks = entries }, s))

  pub deliver_incoming_data : Bytes → Bytes → Action (Adapted S) (Unit {0})
  deliver_incoming_data peer_id bytes (adapter, s) = elim adapter.on_data_received [
    | none ↦ (ok tt, (adapter, s))
    | some callback ↦ calling (callback peer_id bytes) (adapter, s)
  ]

  pub notify_peer_found : PeerInfo → Action (Adapted S) (Unit {0})
  notify_peer_found peer (adapter, s) = elim adapter.on_peer_found [
    | none ↦ (ok tt, (adapter, s))
    | some callback ↦ calling (callback peer) (adapter, s)
  ]

  -- A call of an empty function throws.
  pub call_result : OnResult S → Bool → Action S (Unit {0})
  call_result none success = throw bad_function_call
  call_result (some on_result) success = on_result success

  -- `pending_connect_callbacks_.erase(it);`
  pub erase_entry : Bytes → Action (Adapted S) (Unit {0})
  unfolding erase
  erase_entry peer_id (adapter, s) =
      let entries = erase peer_id adapter.pending_connect_callbacks in
      (ok tt, (record adapter { pending_connect_callbacks = entries }, s))

  pub notify_connect_result : Bytes → Bool → Action (Adapted S) (Unit {0})
  unfolding find call_result erase_entry
  notify_connect_result peer_id success (adapter, s) =
      elim (find peer_id adapter.pending_connect_callbacks) [
        | none ↦ (ok tt, (adapter, s))
        | some on_result ↦
            (calling (call_result on_result success) >> erase_entry peer_id) (adapter, s)
      ]
