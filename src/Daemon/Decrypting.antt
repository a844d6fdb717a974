-- ===== src/Daemon/Decrypting.antt =====
-- `DecryptChunk` of cmd/daemon/bridge.go, over a library that keeps to its manual and a `malloc` that
-- serves.
use off_drop.Base.{ℕ, ◌≤◌, ◌≡◌, inl, inr, refl, arith}
use off_drop.Base.{length, none, some, ◌==◌, Bool-cases}
use off_drop.Base.Result.{Result, ok, err, fault}
use off_drop.Protocol.{Bytes}
use off_drop.OpenSsl.{OpenSsl}
use off_drop.OpenSsl.Documented.{Standard, Documented}
use off_drop.Crypto.{EncryptedChunk}
use off_drop.Crypto.Seal.{opened}
use off_drop.Files.{bytes_eq}
use off_drop.Memory.{Memory, Malloc, write}
use off_drop.CApi.{airdrop_err_crypto}
use off_drop.CApi.Handing.{Serves, IsFresh, handed}
use off_drop.CApi.Decrypting.{Given, airdrop_decrypt_chunk-opened}
use off_drop.Chunking.Outcomes.{opened_cases}
use off_drop.Daemon.{Returned, value, failed, decrypt_into, if_ok}
use off_drop.Daemon.Buffers.{full_buffer, take_out_lem}
use off_drop.Daemon.Locals.{Restores, Leaves}

-- What Go makes of what the key opens.
abbrev pub answer : Result Bytes → Result (Returned Bytes)
answer (ok text) = ok (value text)
answer (err e) = ok (failed airdrop_err_crypto)
answer fault = fault

opened-length :
    (std : Standard) (key : Bytes) (c : EncryptedChunk) (text : Bytes)
    → opened std key c ≡ ok text
    → length text ≡ length c.ciphertext
unfolding opened
opened-length std key c text e = elim (Bool-cases (length c.nonce == 12)) [
  | inr nonce ↦ absurd (cc (rw nonce at e))
  | inl nonce ↦ elim (Bool-cases (length c.tag == 16)) [
    | inr tag ↦ absurd (cc (rw (nonce, tag) at e))
    | inl tag ↦ elim (Bool-cases (bytes_eq c.tag (std.mac key c.nonce c.ciphertext))) [
      | inr other ↦ absurd (cc (rw (nonce, tag, other) at e))
      | inl same ↦ here (rw (nonce, tag, same) at e)
    ]
  ]
]
  where
    here : ok (std.decrypt key c.nonce c.ciphertext) ≡ ok text → length text ≡ length c.ciphertext
    here e = cc (e, std.length-decrypt key c.nonce c.ciphertext)

module _ (lib : OpenSsl) (std : Standard) (doc : Documented lib std) (malloc : Malloc)
    (serves : Serves malloc) where
  pub decrypt_into-Restores :
      (m : Memory) (k op on oc ot : ℕ) (key : Bytes) (c : EncryptedChunk) (w : lib.World)
      → IsFresh m
      → Given m k op (some on) (some oc) (some ot) key c
      → 1 ≤ length c.ciphertext
      → (w' : lib.World) × Leaves lib.World Restores
          (decrypt_into lib malloc c op k on oc ot (w, m))
          m
          (answer (opened std key c))
          w'
  unfolding decrypt_into if_ok
  decrypt_into-Restores m k op on oc ot key c w fresh v filled =
      let (w', called) =
        airdrop_decrypt_chunk-opened lib std doc malloc serves m k op (some on) (some oc) (some ot)
          key c w v in
      elim (opened_cases std key c) [
        | inr (e, refused) ↦
            (w', (m, rw (called, refused) refl, record { blocks = λ a. refl; fresh = fresh }))
        | inl (text, good) ↦
            let mh = handed m op text in
            let size = opened-length std key c text good in
            let small = v.small in
            let slot : mh.buffers op ≡ some (full_buffer m.next text) =
              unfold write in ground arith in
            let there : mh.blocks m.next ≡ some text = unfold write in ground arith in
            let out =
              take_out_lem lib malloc mh w' op m.next text slot there (omega (arith, size, filled))
                (omega (arith, size, small)) in
            (
              w',
              (
                record mh { blocks = write mh.blocks m.next none },
                rw (called, good, out) refl,
                record {
                  blocks = λ a. unfold write in ground (arith, fresh m.next (omega arith));
                  fresh = λ a h. unfold write in ground (arith, fresh a (omega arith));
                },
              ),
            )
      ]
