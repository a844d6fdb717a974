-- ===== src/Transport/Bluetooth/Operations.antt =====
-- BluetoothTransportAdapter of platform/macos/BluetoothBridge.mm as an implementation of
-- `ITransport`, and what it does with data that comes in.
use off_drop.Base.{◌≡◌, refl, List, [], ◌∷◌, some}
use off_drop.Base.Action.{Action, pure, ◌>>◌}
use off_drop.Protocol.{Bytes}
use off_drop.Transport.{Handler}
use off_drop.Transport.Interface.{ITransport, calling, calling_then, take_each}
use off_drop.Transport.Bluetooth.{
  BluetoothTransportAdapter, Adapted, start_scanning, connect, set_on_data_received,
  deliver_incoming_data,
}

module _ {S : Type 0} where
  -- The operations whose request to CoreBluetooth is a comment in the source have an empty body.
  pub adapter_operations : ITransport (Adapted S) S
  adapter_operations = record {
    start_advertising = λ device_name. pure tt;
    stop_advertising = pure tt;
    start_scanning = start_scanning;
    stop_scanning = pure tt;
    connect = connect;
    disconnect = λ peer_id. pure tt;
    send_bytes = λ peer_id bytes. pure tt;
    on_data_received = set_on_data_received;
  }

  -- Data of a peer that comes in block by block.
  pub deliver_each : Bytes → List Bytes → Action (Adapted S) (Unit {0})
  deliver_each peer_id [] = pure tt
  deliver_each peer_id (bytes ∷ blocks) =
      deliver_incoming_data peer_id bytes >> deliver_each peer_id blocks

  abbrev pub listening : BluetoothTransportAdapter S → Handler S → BluetoothTransportAdapter S
  listening adapter handler = record adapter { on_data_received = some handler }

  deliver_each-take_each :
      (adapter : BluetoothTransportAdapter S) (handler : Handler S) (from : Bytes)
      (blocks : List Bytes) (s : S)
      → deliver_each from blocks (listening adapter handler, s)
        ≡ calling (take_each handler from blocks) (listening adapter handler, s)
  unfolding deliver_each take_each deliver_incoming_data calling
  deliver_each-take_each adapter handler from [] s = refl
  deliver_each-take_each adapter handler from (bytes ∷ blocks) s =
      calling_then (handler from bytes) (take_each handler from blocks) (deliver_each from blocks)
        (listening adapter handler) s (deliver_each-take_each adapter handler from blocks)

  -- After a handler is installed at the adapter through the interface, data that comes in block by
  -- block is what the handler is called with: each block, whole, in order and once, under the name of
  -- its peer.
  pub adapter_operations-take_each :
      (adapter : BluetoothTransportAdapter S) (handler : Handler S) (from : Bytes)
      (blocks : List Bytes) (s : S)
      → (adapter_operations.on_data_received (some handler) >> deliver_each from blocks)
          (adapter, s)
        ≡ calling (take_each handler from blocks) (listening adapter handler, s)
  unfolding adapter_operations set_on_data_received
  adapter_operations-take_each adapter handler from blocks s =
      deliver_each-take_each adapter handler from blocks s
