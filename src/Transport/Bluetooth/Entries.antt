-- ===== src/Transport/Bluetooth/Entries.antt =====
-- The map of BluetoothTransportAdapter of platform/macos/BluetoothBridge.mm: what is found in it
-- after an assignment and after an erasure.
use off_drop.Base.{if◌then◌else◌, ◌≡◌, ◌≢◌, refl, sym, ap, ◌∙◌, subst, [], ◌∷◌, none, some, false}
use off_drop.Base.{inl, inr, Bool-cases}
use off_drop.Protocol.{Bytes}
use off_drop.Files.{bytes_eq, bytes_eq_refl, bytes_eq→eq, bytes_eq-false→ne}
use off_drop.Transport.Bluetooth.{OnResult, PendingMap, find, assign, erase}

bytes_eq_other : (p q : Bytes) → p ≢ q → bytes_eq p q ≡ false
bytes_eq_other p q ne = elim (Bool-cases (bytes_eq p q)) [
  | inl same ↦ absurd (ne (bytes_eq→eq p q same))
  | inr other ↦ other
]

module _ {S : Type 0} where
  pub find-assign :
      (p : Bytes) (callback : OnResult S) (entries : PendingMap S)
      → find p (assign p callback entries) ≡ some callback
  unfolding find assign
  find-assign p callback [] = rw (bytes_eq_refl p) refl
  find-assign p callback ((key, old) ∷ entries) = elim (Bool-cases (bytes_eq key p)) [
    | inl same ↦ rw (same, same) refl
    | inr other ↦ rw (other, other) (find-assign p callback entries)
  ]

  pub find-assign_other :
      (p q : Bytes) (callback : OnResult S) (entries : PendingMap S)
      → p ≢ q
      → find q (assign p callback entries) ≡ find q entries
  unfolding find assign
  find-assign_other p q callback [] ne = rw (bytes_eq_other p q ne) refl
  find-assign_other p q callback ((key, old) ∷ entries) ne = elim (Bool-cases (bytes_eq key p)) [
    | inl same ↦
        let elsewhere = bytes_eq_other key q (λ e. ne (sym (bytes_eq→eq key p same) ∙ e)) in
        rw (same, elsewhere) refl
    | inr other ↦ rw other (
        ap (λ x. if bytes_eq key q then some old else x)
          (find-assign_other p q callback entries ne))
  ]

  -- No peer has two entries.
  unfoldable pub IsDistinct : PendingMap S → Type 0
  IsDistinct [] = Unit {0}
  IsDistinct ((key, callback) ∷ entries) = (find key entries ≡ none) × IsDistinct entries

  pub find-erase :
      (p : Bytes) (entries : PendingMap S) → IsDistinct entries → find p (erase p entries) ≡ none
  unfolding find erase IsDistinct
  find-erase p [] d = refl
  find-erase p ((key, callback) ∷ entries) (fresh, d) = elim (Bool-cases (bytes_eq key p)) [
    | inl same ↦
        rw same (subst (λ (k : Bytes). find k entries ≡ none) (bytes_eq→eq key p same) fresh)
    | inr other ↦ rw (other, other) (find-erase p entries d)
  ]

  pub find-erase_other :
      (p q : Bytes) (entries : PendingMap S) → p ≢ q → find q (erase p entries) ≡ find q entries
  unfolding find erase
  find-erase_other p q [] ne = refl
  find-erase_other p q ((key, callback) ∷ entries) ne = elim (Bool-cases (bytes_eq key p)) [
    | inl same ↦
        let elsewhere = bytes_eq_other key q (λ e. ne (sym (bytes_eq→eq key p same) ∙ e)) in
        rw (same, elsewhere) refl
    | inr other ↦
        rw other
          (ap (λ x. if bytes_eq key q then some callback else x) (find-erase_other p q entries ne))
  ]

  pub assign-IsDistinct :
      (p : Bytes) (callback : OnResult S) (entries : PendingMap S)
      → IsDistinct entries
      → IsDistinct (assign p callback entries)
  unfolding find assign IsDistinct
  assign-IsDistinct p callback [] d = (refl, tt)
  assign-IsDistinct p callback ((key, old) ∷ entries) (fresh, d) =
      elim (Bool-cases (bytes_eq key p)) [
        | inl same ↦ rw same (fresh, d)
        | inr other ↦ rw other (
          find-assign_other p key callback entries (λ e. bytes_eq-false→ne key p other (sym e))
              ∙ fresh,
          assign-IsDistinct p callback entries d,
        )
      ]

  pub erase-IsDistinct :
      (p : Bytes) (entries : PendingMap S) → IsDistinct entries → IsDistinct (erase p entries)
  unfolding find erase IsDistinct
  erase-IsDistinct p [] d = tt
  erase-IsDistinct p ((key, callback) ∷ entries) (fresh, d) = elim (Bool-cases (bytes_eq key p)) [
    | inl same ↦ rw same d
    | inr other ↦ rw other (
      find-erase_other p key entries (λ e. bytes_eq-false→ne key p other (sym e)) ∙ fresh,
      erase-IsDistinct p entries d,
    )
  ]
