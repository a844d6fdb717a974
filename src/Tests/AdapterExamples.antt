-- ===== src/Tests/AdapterExamples.antt =====
-- BluetoothTransportAdapter of platform/macos/BluetoothBridge.mm with two peers, of which the
-- second is refused while the first waits. The program's state is a number.
use off_drop.Base.{ℕ, suc, ◌≡◌, ◌≢◌, refl, [], ◌∷◌, none, some, Bool, true, false, if◌then◌else◌}
use off_drop.Base.Result.{Result, ok}
use off_drop.Protocol.{Bytes}
use off_drop.Files.{bytes_eq, bytes_eq-false→ne}
use off_drop.Transport.Bluetooth.{
  BluetoothTransportAdapter, Adapted, connect, notify_connect_result,
}
use off_drop.Transport.Bluetooth.Entries.{IsDistinct}
use off_drop.Transport.Bluetooth.Pending.{
  Events, none_yet, happens, connects, is_told, told, notify_connect_result_once,
}

abbrev first_peer : Bytes
first_peer = b'p' ∷ []

abbrev second_peer : Bytes
second_peer = b'q' ∷ []

peers_apart : first_peer ≢ second_peer
unfolding bytes_eq
peers_apart = bytes_eq-false→ne first_peer second_peer refl

abbrev count_success : Bool → ℕ → Result (Unit {0}) × ℕ
count_success success n = (ok tt, if success then suc n else n)

abbrev adapter : BluetoothTransportAdapter ℕ
adapter = record { on_peer_found = none; on_data_received = none; pending_connect_callbacks = [] }

nothing-IsDistinct : IsDistinct {S = ℕ} []
unfolding IsDistinct
nothing-IsDistinct = tt

abbrev waiting : Adapted ℕ
waiting = (connect first_peer (some count_success) (adapter, 4)).1

abbrev refused : Adapted ℕ
refused =
    (notify_connect_result second_peer false (connect second_peer (some count_success) waiting).1).1

between : Events first_peer waiting refused
between =
    happens (happens none_yet (connects second_peer (some count_success) _ peers_apart refl))
      (is_told second_peer false _ peers_apart refl)

notify_connect_result_once_example :
    (notify_connect_result first_peer true refused
      ≡ (ok tt, (told first_peer refused.0, suc refused.1)))
    × (notify_connect_result first_peer false (told first_peer refused.0, suc refused.1)
        ≡ (ok tt, (told first_peer refused.0, suc refused.1)))
notify_connect_result_once_example =
    notify_connect_result_once first_peer count_success true false adapter 4 (suc refused.1) refused
      (told first_peer refused.0, suc refused.1) nothing-IsDistinct between refl none_yet
