-- ===== src/Transport/Bluetooth/Pending.antt =====
-- The callbacks of `Connect` that BluetoothTransportAdapter of platform/macos/BluetoothBridge.mm
-- keeps for a peer until a result comes for it.
use off_drop.Base.{◌≡◌, ◌≢◌, refl, sym, ap, ◌∙◌, subst, Option, some, Bool}
use off_drop.Base.{inl, inr, Option-cases}
use off_drop.Base.Result.{Result, ok, err, fault}
use off_drop.Base.Action
use off_drop.Base.Action.{Action}
use off_drop.Protocol.{Bytes}
use off_drop.Transport.{Handler}
use off_drop.Transport.Interface.{PeerInfo, calling}
use off_drop.Transport.Bluetooth.{
  OnResult, PendingMap, BluetoothTransportAdapter, Adapted, find, erase, start_scanning, connect,
  set_on_data_received, deliver_incoming_data, notify_peer_found, notify_connect_result,
  call_result, erase_entry,
}
use off_drop.Transport.Bluetooth.Entries.{
  find-assign, find-assign_other, find-erase, find-erase_other, assign-IsDistinct, erase-IsDistinct,
  IsDistinct,
}

module _ {S : Type 0} where
  abbrev pub entries_of : Adapted S → PendingMap S
  entries_of u = u.0.pending_connect_callbacks

  -- An event that is not about the peer `p`: whatever it returns, this is what it leaves.
  pub data Event (p : Bytes) (u v : Adapted S) : Type 0 where
    scans :
        (on_peer_found : Option (PeerInfo → Action S (Unit {0}))) (r : Result (Unit {0}))
        → start_scanning on_peer_found u ≡ (r, v)
        → Event p u v
    listens :
        (cb : Option (Handler S)) (r : Result (Unit {0}))
        → set_on_data_received cb u ≡ (r, v)
        → Event p u v
    connects :
        (q : Bytes) (on_result : OnResult S) (r : Result (Unit {0}))
        → p ≢ q
        → connect q on_result u ≡ (r, v)
        → Event p u v
    is_told :
        (q : Bytes) (success : Bool) (r : Result (Unit {0}))
        → p ≢ q
        → notify_connect_result q success u ≡ (r, v)
        → Event p u v
    finds :
        (peer : PeerInfo) (r : Result (Unit {0})) → notify_peer_found peer u ≡ (r, v) → Event p u v
    hears :
        (q bytes : Bytes) (r : Result (Unit {0}))
        → deliver_incoming_data q bytes u ≡ (r, v)
        → Event p u v

  pub data Events (p : Bytes) (u : Adapted S) : Adapted S → Type 0 where
    none_yet : Events p u u
    happens : {v w : Adapted S} → Events p u v → Event p v w → Events p u w

  -- What an event of another peer keeps.
  record Kept (p : Bytes) (entries after : PendingMap S) : Type 0 where
    same : find p after ≡ find p entries
    distinct : IsDistinct after

  notify_peer_found-entries :
      (peer : PeerInfo) (a : BluetoothTransportAdapter S) (s : S)
      → entries_of (notify_peer_found peer (a, s)).1 ≡ a.pending_connect_callbacks
  unfolding notify_peer_found calling
  notify_peer_found-entries peer a s = elim (Option-cases a.on_peer_found) [
    | inl e ↦ rw (e, notify_peer_found) refl
    | inr (callback, e) ↦ rw (e, notify_peer_found) refl
  ]

  deliver_incoming_data-entries :
      (q bytes : Bytes) (a : BluetoothTransportAdapter S) (s : S)
      → entries_of (deliver_incoming_data q bytes (a, s)).1 ≡ a.pending_connect_callbacks
  unfolding deliver_incoming_data calling
  deliver_incoming_data-entries q bytes a s = elim (Option-cases a.on_data_received) [
    | inl e ↦ rw (e, deliver_incoming_data) refl
    | inr (callback, e) ↦ rw (e, deliver_incoming_data) refl
  ]

  notify_connect_result-Kept :
      (p q : Bytes) (success : Bool) (a : BluetoothTransportAdapter S) (s : S)
      → p ≢ q
      → IsDistinct a.pending_connect_callbacks
      → Kept p a.pending_connect_callbacks (entries_of (notify_connect_result q success (a, s)).1)
  unfolding notify_connect_result calling erase_entry
  notify_connect_result-Kept p q success a s ne d =
      elim (Option-cases (find q a.pending_connect_callbacks)) [
        | inl e ↦ rw (e, notify_connect_result) (record { same = refl; distinct = d })
        | inr (on_result, e) ↦
            rw (e, notify_connect_result) (by_result (call_result on_result success s))
      ]
    where
      by_result :
          (x : Result (Unit {0}) × S)
          → Kept p a.pending_connect_callbacks
              (entries_of (Action.continue (x.0, (a, x.1)) (λ _. erase_entry q)).1)
      by_result (ok done, t) = record {
        same = find-erase_other q p a.pending_connect_callbacks (λ e. ne (sym e));
        distinct = erase-IsDistinct q a.pending_connect_callbacks d;
      }
      by_result (err e, t) = record { same = refl; distinct = d }
      by_result (fault, t) = record { same = refl; distinct = d }

  state_of : {x y : Result (Unit {0}) × Adapted S} → x ≡ y → x.1 ≡ y.1
  state_of e = ap (λ (z : Result (Unit {0}) × Adapted S). z.1) e

  Event-Kept :
      (p : Bytes) (u v : Adapted S)
      → IsDistinct (entries_of u)
      → Event p u v
      → Kept p (entries_of u) (entries_of v)
  unfolding start_scanning set_on_data_received connect
  Event-Kept p (a, s) v d (scans on_peer_found r e) =
      subst (λ w. Kept p a.pending_connect_callbacks (entries_of w)) (state_of e)
        (record { same = refl; distinct = d })
  Event-Kept p (a, s) v d (listens cb r e) =
      subst (λ w. Kept p a.pending_connect_callbacks (entries_of w)) (state_of e)
        (record { same = refl; distinct = d })
  Event-Kept p (a, s) v d (connects q on_result r ne e) =
      subst (λ w. Kept p a.pending_connect_callbacks (entries_of w)) (state_of e)
        (record {
          same = find-assign_other q p on_result a.pending_connect_callbacks (λ e'. ne (sym e'));
          distinct = assign-IsDistinct q on_result a.pending_connect_callbacks d;
        })
  Event-Kept p (a, s) v d (is_told q success r ne e) =
      subst (λ w. Kept p a.pending_connect_callbacks (entries_of w)) (state_of e)
        (notify_connect_result-Kept p q success a s ne d)
  Event-Kept p (a, s) v d (finds peer r e) =
      let same = sym (notify_peer_found-entries peer a s) ∙ ap entries_of (state_of e) in
      subst (Kept p a.pending_connect_callbacks) same (record { same = refl; distinct = d })
  Event-Kept p (a, s) v d (hears q bytes r e) =
      let same = sym (deliver_incoming_data-entries q bytes a s) ∙ ap entries_of (state_of e) in
      subst (Kept p a.pending_connect_callbacks) same (record { same = refl; distinct = d })

  Events-Kept :
      (p : Bytes) {u v : Adapted S}
      → IsDistinct (entries_of u)
      → Events p u v
      → Kept p (entries_of u) (entries_of v)
  Events-Kept p d none_yet = record { same = refl; distinct = d }
  Events-Kept p {v = w} d (happens {v} events event) =
      let before = Events-Kept p d events in
      let one = Event-Kept p v w before.distinct event in
      record { same = one.same ∙ before.same; distinct = one.distinct }

  -- The adapter without the entry of a peer.
  abbrev pub told : Bytes → BluetoothTransportAdapter S → BluetoothTransportAdapter S
  told p a = record a { pending_connect_callbacks = erase p a.pending_connect_callbacks }

  -- The callback that is given to `connect` for a peer is called by the first result that comes for
  -- this peer, with that result, and by no later one, whatever events of other peers, data and
  -- discoveries come in between and whatever their callbacks return: a second result changes nothing.
  -- No peer has two entries at the start, and the callback returns.
  pub notify_connect_result_once :
      (p : Bytes) (callback : Bool → Action S (Unit {0})) (first second : Bool)
      → (a : BluetoothTransportAdapter S) (s t : S) (u v : Adapted S)
      → IsDistinct a.pending_connect_callbacks
      → Events p (connect p (some callback) (a, s)).1 u
      → callback first u.1 ≡ (ok tt, t)
      → Events p (told p u.0, t) v
      → (notify_connect_result p first u ≡ (ok tt, (told p u.0, t)))
        × (notify_connect_result p second v ≡ (ok tt, v))
  unfolding connect calling call_result erase_entry notify_connect_result
  notify_connect_result_once p callback first second a s t (a1, s1) (a2, s2) d between called
        after =
      let start = assign-IsDistinct p (some callback) a.pending_connect_callbacks d in
      let before = Events-Kept p start between in
      let there = before.same ∙ find-assign p (some callback) a.pending_connect_callbacks in
      let later =
        Events-Kept p (erase-IsDistinct p a1.pending_connect_callbacks before.distinct) after in
      let gone = later.same ∙ find-erase p a1.pending_connect_callbacks before.distinct in
      (rw (there, notify_connect_result) (rw called refl), rw (gone, notify_connect_result) refl)
