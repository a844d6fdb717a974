-- ===== src/Daemon/Sealing.antt =====
-- `EncryptChunk` of cmd/daemon/bridge.go with its local variables.
use off_drop.Base.{ℕ, suc, ◌^◌, ◌≤◌, ◌<◌, ◌≡◌, refl, arith}
use off_drop.Base.{[], ◌∷◌, length, none, some}
use off_drop.Base.Result.{Result, ok}
use off_drop.Protocol.{Bytes}
use off_drop.OpenSsl.{OpenSsl}
use off_drop.OpenSsl.Documented.{Standard, Documented}
use off_drop.Crypto.{EncryptedChunk}
use off_drop.Crypto.Seal.{sealed}
use off_drop.Memory.{Memory, Malloc}
use off_drop.CApi.Handing.{Serves, IsFresh}
use off_drop.Daemon.{Returned, value, with_bytes, with_empty, encrypt_into, encrypt_chunk}
use off_drop.Daemon.{Go, with_slice, with_block, with_slot}
use off_drop.Daemon.Frame.{with_locals, locals-Ready, text-Ready}
use off_drop.Daemon.Locals.{
  Restores, Leaks, Leaves, Scoped, Restores-Scoped, Leaks-Scoped, with_empty-IsFresh,
  with_block-Leaves, with_slot-Leaves,
}
use off_drop.Daemon.Encrypting.{encrypt_into-Restores, encrypt_into-Leaks}

module _ (lib : OpenSsl) (std : Standard) (doc : Documented lib std) (malloc : Malloc)
    (serves : Serves malloc) where
  module _ (m : Memory) (key : Bytes) (fresh : IsFresh m) (wide : length key ≡ 32) where
    abbrev m1 : Memory
    m1 = with_empty m

    abbrev m2 : Memory
    m2 = with_empty m1

    abbrev m3 : Memory
    m3 = with_empty m2

    fresh1 : IsFresh m1
    fresh1 = with_empty-IsFresh m fresh

    fresh2 : IsFresh m2
    fresh2 = with_empty-IsFresh m1 fresh1

    fresh3 : IsFresh m3
    fresh3 = with_empty-IsFresh m2 fresh2

    -- The bodies of `encrypt_chunk` behind each of its locals.
    module _ (text : Bytes) where
      abbrev Body : Type 0
      Body = Go lib malloc (Returned EncryptedChunk)

      abbrev behind_key : ℕ → ℕ → ℕ → ℕ → Body
      behind_key on oc ot k =
          with_slice lib malloc text λ p. encrypt_into lib malloc k p (length text) on oc ot

      abbrev behind_tag : ℕ → ℕ → ℕ → Body
      behind_tag on oc ot = with_block lib malloc key (behind_key on oc ot)

      abbrev behind_ciphertext : ℕ → ℕ → Body
      behind_ciphertext on oc = with_slot lib malloc (behind_tag on oc)

      abbrev behind_nonce : ℕ → Body
      behind_nonce on = with_slot lib malloc (behind_ciphertext on)

    encrypt_chunk_scoped :
        {R : Memory → Memory → Type 0} (scoped : Scoped R) (text : Bytes) (w w' : lib.World)
        (r : Result (Returned EncryptedChunk))
        → let n = m.next in
          let m4 = with_locals m key in
          Leaves lib.World R
            (behind_key text n (suc n) (suc (suc n)) (suc (suc (suc n))) (w, m4))
            m4
            r
            w'
          → Leaves lib.World R (encrypt_chunk lib malloc key text (w, m)) m r w'
    unfolding encrypt_chunk
    encrypt_chunk_scoped scoped text w w' r inner =
        let n = m.next in
        with_slot-Leaves lib malloc scoped (behind_nonce text) m w w' r fresh (
          with_slot-Leaves lib malloc scoped (behind_ciphertext text n) m1 w w' r fresh1 (
            with_slot-Leaves lib malloc scoped (behind_tag text n (suc n)) m2 w w' r fresh2 (
              with_block-Leaves lib malloc scoped key (behind_key text n (suc n) (suc (suc n))) m3 w
                w' r fresh3 inner)))

    pub encrypt_chunk-sealed :
        (text : Bytes) (w : lib.World)
        → 1 ≤ length text
        → length text < 2 ^ 31
        → (nonce : Bytes) × (w' : lib.World) × (length nonce ≡ 12)
          × Leaves lib.World Restores
              (encrypt_chunk lib malloc key text (w, m))
              m
              (ok (value (sealed std key nonce text)))
              w'
    unfolding with_slice
    encrypt_chunk-sealed [] w filled small = absurd (omega (arith, filled))
    encrypt_chunk-sealed (b ∷ bytes) w filled small =
        let text : Bytes = b ∷ bytes in
        let n = m.next in
        let m4 = with_locals m key in
        let ready = locals-Ready m key fresh wide in
        let m5 = with_bytes m4 text in
        let (nonce, w', size, inner) =
          encrypt_into-Restores lib std doc malloc serves m5 (suc (suc (suc n))) (some m4.next) n
            (suc n) (suc (suc n)) key text
            (text-Ready m4 (suc (suc (suc n))) n (suc n) (suc (suc n)) key text ready) w
            (omega arith) small in
        (
          nonce,
          w',
          size,
          encrypt_chunk_scoped Restores-Scoped text w w' (ok (value (sealed std key nonce text))) (
              with_block-Leaves lib malloc Restores-Scoped text
                (λ a.
                  encrypt_into lib malloc (suc (suc (suc n))) (some a) (length text) n (suc n)
                    (suc (suc n)))
                m4 w w' (ok (value (sealed std key nonce text))) ready.fresh inner),
        )

    pub encrypt_chunk-Leaks :
        (w : lib.World)
        → (nonce : Bytes) × (w' : lib.World) × (length nonce ≡ 12)
          × Leaves lib.World Leaks
              (encrypt_chunk lib malloc key [] (w, m))
              m
              (ok (value (sealed std key nonce [])))
              w'
    unfolding with_slice
    encrypt_chunk-Leaks w =
        let n = m.next in
        let (nonce, w', size, inner) =
          encrypt_into-Leaks lib std doc malloc serves (with_locals m key) (suc (suc (suc n))) none
            n (suc n) (suc (suc n)) key [] (locals-Ready m key fresh wide) w refl in
        (
          nonce,
          w',
          size,
          encrypt_chunk_scoped Leaks-Scoped [] w w' (ok (value (sealed std key nonce []))) inner,
        )
