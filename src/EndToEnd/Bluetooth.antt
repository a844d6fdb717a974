-- ===== src/EndToEnd/Bluetooth.antt =====
-- A transfer whose messages come in through BluetoothTransportAdapter of
-- platform/macos/BluetoothBridge.mm, with the handler of core/tests/test_chunking_e2e.cpp.
use off_drop.Base.{ℕ, ◌<◌, ◌≡◌, refl, ap, ◌∙◌, List, [], ◌∷◌, map, length, All, true, some}
use off_drop.Base.Result.{Result, ok}
use off_drop.Base.Action
use off_drop.Base.Action.{◌>>◌}
use off_drop.Protocol.{Bytes, ChunkPayload, MessageType, frame_message, encode_chunk}
use off_drop.Files.{IsWritable, open_in}
use off_drop.OpenSsl.{OpenSsl}
use off_drop.OpenSsl.Documented.{Standard, Documented}
use off_drop.Chunking.{Machine, FileReceiver, chunk_count, file_receiver}
use off_drop.Chunking.{is_complete, verify_integrity, receive_chunk}
use mathlib.Core.Path.{fun_ext}
use off_drop.Chunking.Assembly.{receive_all, Comes}
use off_drop.Chunking.Blocks.{IsSendable}
use off_drop.Chunking.Receiving.{IsGenuine}
use off_drop.Chunking.Transfer.{receive_all-assembles}
use off_drop.EndToEnd.{on_chunk_message}
use off_drop.EndToEnd.Wire.{IsWire, on_chunk_message-frame}
use off_drop.Transport.Interface.{calling, take_each}
use off_drop.Transport.Bluetooth.{BluetoothTransportAdapter}
use off_drop.Transport.Bluetooth.Operations.{
  adapter_operations, deliver_each, listening, adapter_operations-take_each,
}

-- The messages of chunks.
abbrev pub messages : List ChunkPayload → List Bytes
messages chunks = map (λ c. frame_message MessageType.chunk (encode_chunk c)) chunks

module _ (lib : OpenSsl) (key : Bytes) where
  take_each-receive_all :
      (chunks : List ChunkPayload) (from : Bytes) (s : Machine lib × FileReceiver)
      → All IsWire chunks
      → take_each (on_chunk_message lib key) from (messages chunks) s ≡ receive_all lib key chunks s
  unfolding take_each receive_all
  take_each-receive_all [] from s _ = refl
  take_each-receive_all (c ∷ chunks) from s (wire, wires) =
      rw (on_chunk_message-frame lib key c wire from s) (
        ap (Action.continue (receive_chunk lib key c s))
          (fun_ext λ done. fun_ext λ t. take_each-receive_all chunks from t wires))

  -- The messages of a file's chunks that come in at the adapter, in any order and with any
  -- repetition, put the file together: each call returns, the receiver is complete, the output file
  -- holds the file's bytes, and `verify_integrity` confirms its hash. The handler was installed
  -- through the interface, each index of the file comes, the key opens each chunk to its block and
  -- its parts fit the wire; the file is below 32 TB, the output path may be read and takes each
  -- write whole, and the library keeps to its manual.
  pub adapter_operations-assembles :
      (std : Standard)
      → Documented lib std
      → (file path from : Bytes) (m : Machine lib) (chunks : List ChunkPayload)
        (adapter : BluetoothTransportAdapter (Machine lib × FileReceiver))
      → IsSendable file
      → m.disk.can_read path ≡ true
      → IsWritable m.disk path
      → All (IsGenuine lib key file) chunks
      → All IsWire chunks
      → ((i : ℕ) → i < chunk_count (length file) → Comes i chunks)
      → let handler = on_chunk_message lib key in
        (r r' : FileReceiver) × (m0 m' m'' : Machine lib) × (file_receiver lib path
            (length file)
            (chunk_count (length file))
            (std.sha256 file)
            m
          ≡ (ok r, m0))
        × ((adapter_operations.on_data_received (some handler)
                >> deliver_each from (messages chunks))
              (adapter, (m0, r))
            ≡ (ok tt, (listening adapter handler, (m', r'))))
        × (is_complete r' ≡ true)
        × (open_in m'.disk path ≡ some file)
        × (verify_integrity lib r' m' ≡ (ok true, m''))
  unfolding calling
  adapter_operations-assembles std doc file path from m chunks adapter sendable readable writable
        genuine wires come =
      let (r, r', m0, m', m'', made, run, complete, whole, verified) =
        receive_all-assembles lib std doc key file path m chunks sendable readable writable genuine
          come in
      let handler = on_chunk_message lib key in
      let taken = take_each-receive_all chunks from (m0, r) wires ∙ run in
      let delivered =
        adapter_operations-take_each adapter handler from (messages chunks) (m0, r)
        ∙ ap
            (λ (x : Result (Unit {0}) × (Machine lib × FileReceiver)).
              (x.0, (listening adapter handler, x.1)))
            taken in
      (r, r', m0, m', m'', made, delivered, complete, whole, verified)
