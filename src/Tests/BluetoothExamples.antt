-- ===== src/Tests/BluetoothExamples.antt =====
-- platform/macos/BluetoothBridge.mm at the messages of a file of three bytes, over the library of
-- Tests/Toy.antt.
use off_drop.Base.{◌≡◌, refl, [], ◌∷◌, true, some}
use off_drop.Base.Result.{ok}
use off_drop.Base.Action.{◌>>◌}
use off_drop.Protocol.{Bytes}
use off_drop.Files.{open_in}
use off_drop.Chunking.{
  Machine, FileReceiver, chunk_count, file_receiver, is_complete, verify_integrity,
}
use off_drop.EndToEnd.{on_chunk_message}
use off_drop.EndToEnd.Bluetooth.{messages, adapter_operations-assembles}
use off_drop.Transport.Bluetooth.{BluetoothTransportAdapter, bluetooth_transport_adapter}
use off_drop.Transport.Bluetooth.Operations.{adapter_operations, deliver_each, listening}
use off_drop.Tests.Toy.{toy_ssl, toy_standard, toy-Documented}
use off_drop.Tests.FileData.{key, output_path, three_bytes, machine, sendable, writable}
use off_drop.Tests.FileExamples.{only_chunk, only_chunk-IsGenuine, only_chunk-IsWire, every_index}

abbrev adapter : BluetoothTransportAdapter (Machine toy_ssl × FileReceiver)
adapter = bluetooth_transport_adapter

abbrev from : Bytes
from = b'a' ∷ []

adapter_operations-assembles_example :
    let handler = on_chunk_message toy_ssl key in
    (r r' : FileReceiver) × (m0 m' m'' : Machine toy_ssl) × (file_receiver toy_ssl output_path 3
        (chunk_count 3)
        three_bytes
        machine
      ≡ (ok r, m0))
    × ((adapter_operations.on_data_received (some handler)
            >> deliver_each from (messages (only_chunk ∷ [])))
          (adapter, (m0, r))
        ≡ (ok tt, (listening adapter handler, (m', r'))))
    × (is_complete r' ≡ true)
    × (open_in m'.disk output_path ≡ some three_bytes)
    × (verify_integrity toy_ssl r' m' ≡ (ok true, m''))
adapter_operations-assembles_example =
    adapter_operations-assembles toy_ssl key toy_standard toy-Documented three_bytes output_path
      from machine (only_chunk ∷ []) adapter sendable refl writable (only_chunk-IsGenuine, tt)
      (only_chunk-IsWire, tt) every_index
