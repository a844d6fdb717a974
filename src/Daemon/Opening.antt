-- ===== src/Daemon/Opening.antt =====
-- `DecryptChunk` of cmd/daemon/bridge.go with its local variables, on chunks with and without empty
-- parts.
use off_drop.Base.{ℕ, suc, ◌^◌, ◌≤◌, ◌<◌, ◌≡◌, ◌⊎◌, refl, subst, arith}
use off_drop.Base.{[], ◌∷◌, length, none, some}
use off_drop.Base.Result.{ok, err, index_out_of_range}
use off_drop.Protocol.{Bytes}
use off_drop.OpenSsl.{OpenSsl}
use off_drop.OpenSsl.Documented.{Standard, Documented}
use off_drop.Crypto.{EncryptedChunk}
use off_drop.Crypto.Seal.{opened}
use off_drop.Memory.{Memory, Malloc, write, load}
use off_drop.CApi.Handing.{Serves, IsFresh}
use off_drop.CApi.Decrypting.{Given}
use off_drop.Daemon.{
  Go, Returned, with_bytes, with_empty, with_block, with_slot, decrypt_into, decrypt_chunk,
  first_elements,
}
use off_drop.Daemon.Decrypting.{answer, decrypt_into-Restores}
use off_drop.Daemon.Frame.{empty_buffer, load-with_bytes, load-with_bytes_new}
use off_drop.Daemon.Locals.{
  Restores, Leaves, Restores-Scoped, with_bytes-IsFresh, with_empty-IsFresh, with_block-Leaves,
  with_slot-Leaves,
}

-- No part of the chunk is empty, and its ciphertext is below 2 GB.
pub record HasParts (c : EncryptedChunk) : Type 0 where
  pub nonce : 1 ≤ length c.nonce
  pub ciphertext : 1 ≤ length c.ciphertext
  pub tag : 1 ≤ length c.tag
  pub small : length c.ciphertext < 2 ^ 31

first_elements_filled :
    (nonce ciphertext tag : Bytes)
    → 1 ≤ length nonce
    → 1 ≤ length ciphertext
    → 1 ≤ length tag
    → first_elements nonce ciphertext tag ≡ ok tt
unfolding first_elements
first_elements_filled [] ciphertext tag h k l = absurd (omega (arith, h))
first_elements_filled (n ∷ nonce) [] tag h k l = absurd (omega (arith, k))
first_elements_filled (n ∷ nonce) (c ∷ ciphertext) [] h k l = absurd (omega (arith, l))
first_elements_filled (n ∷ nonce) (c ∷ ciphertext) (t ∷ tag) h k l = refl

first_elements_empty :
    (nonce ciphertext tag : Bytes)
    → length nonce ≡ 0 ⊎ length ciphertext ≡ 0 ⊎ length tag ≡ 0
    → first_elements nonce ciphertext tag ≡ err index_out_of_range
unfolding first_elements
first_elements_empty [] ciphertext tag h = refl
first_elements_empty (n ∷ nonce) [] tag h = refl
first_elements_empty (n ∷ nonce) (c ∷ ciphertext) [] h = refl
first_elements_empty (n ∷ nonce) (c ∷ ciphertext) (t ∷ tag) h = absurd (omega (arith, h))

-- The locals of `DecryptChunk`, the last one first.
module _ (m : Memory) (key : Bytes) (c : EncryptedChunk) (fresh : IsFresh m)
    (wide : length key ≡ 32) where
  abbrev m1 : Memory
  m1 = with_empty m

  abbrev m2 : Memory
  m2 = with_bytes m1 key

  abbrev m3 : Memory
  m3 = with_bytes m2 c.nonce

  abbrev m4 : Memory
  m4 = with_bytes m3 c.ciphertext

  abbrev m5 : Memory
  m5 = with_bytes m4 c.tag

  fresh1 : IsFresh m1
  fresh1 = with_empty-IsFresh m fresh

  fresh2 : IsFresh m2
  fresh2 = with_bytes-IsFresh m1 key fresh1

  fresh3 : IsFresh m3
  fresh3 = with_bytes-IsFresh m2 c.nonce fresh2

  fresh4 : IsFresh m4
  fresh4 = with_bytes-IsFresh m3 c.ciphertext fresh3

  fresh5 : IsFresh m5
  fresh5 = with_bytes-IsFresh m4 c.tag fresh4

  chunk-Given :
      length c.ciphertext < 2 ^ 31
      → Given m5 m1.next m.next (some m2.next) (some m3.next) (some m4.next) key c
  chunk-Given small =
      let key_new =
        subst (λ (n : ℕ). load (some m1.next) n m2 ≡ ok key) wide (load-with_bytes_new m1 key) in
      let nonce_new = load-with_bytes_new m2 c.nonce in
      let ciphertext_new = load-with_bytes_new m3 c.ciphertext in
      record {
        key_there = load-with_bytes m4 c.tag _ _ _ fresh4 (
            load-with_bytes m3 c.ciphertext _ _ _ fresh3
              (load-with_bytes m2 c.nonce _ _ _ fresh2 key_new));
        nonce_there =
            load-with_bytes m4 c.tag _ _ _ fresh4
              (load-with_bytes m3 c.ciphertext _ _ _ fresh3 nonce_new);
        ciphertext_there = load-with_bytes m4 c.tag _ _ _ fresh4 ciphertext_new;
        tag_there = load-with_bytes_new m4 c.tag;
        slot = (empty_buffer, unfold write in ground arith);
        small = small;
      }

module _ (lib : OpenSsl) (std : Standard) (doc : Documented lib std) (malloc : Malloc)
    (serves : Serves malloc) where
  module _ (m : Memory) (key : Bytes) (c : EncryptedChunk) (fresh : IsFresh m)
      (wide : length key ≡ 32) where
    abbrev Body : Type 0
    Body = Go lib malloc (Returned Bytes)

    abbrev behind_ciphertext : ℕ → ℕ → ℕ → ℕ → Body
    behind_ciphertext op k on oc =
        with_block lib malloc c.tag λ ot. decrypt_into lib malloc c op k on oc ot

    abbrev behind_nonce : ℕ → ℕ → ℕ → Body
    behind_nonce op k on = with_block lib malloc c.ciphertext (behind_ciphertext op k on)

    abbrev behind_key : ℕ → ℕ → Body
    behind_key op k = with_block lib malloc c.nonce (behind_nonce op k)

    abbrev behind_checks : ℕ → Body
    behind_checks op = with_block lib malloc key (behind_key op)

    -- `decrypt_chunk` of a chunk of which no part is empty, with a ciphertext below 2 GB, returns
    -- the text where the key opens the chunk, and otherwise the error of the status
    -- AIRDROP_ERR_CRYPTO; no block of the memory is left behind or changed. The key has 32 bytes,
    -- the library keeps to its manual, and `malloc` serves.
    pub decrypt_chunk-answer :
        (w : lib.World)
        → HasParts c
        → (w' : lib.World) × Leaves lib.World Restores
            (decrypt_chunk lib malloc key c (w, m))
            m
            (answer (opened std key c))
            w'
    unfolding decrypt_chunk with_slot
    decrypt_chunk-answer w v =
        let n = m.next in
        let n1 = suc n in
        let n2 = suc n1 in
        let n3 = suc n2 in
        let r = answer (opened std key c) in
        let f1 = fresh1 m key c fresh wide in
        let f2 = fresh2 m key c fresh wide in
        let f3 = fresh3 m key c fresh wide in
        let f4 = fresh4 m key c fresh wide in
        let (w', inner) =
          decrypt_into-Restores lib std doc malloc serves (m5 m key c fresh wide) n1 n n2 n3
            (suc n3) key c w (fresh5 m key c fresh wide) (chunk-Given m key c fresh wide v.small)
            v.ciphertext in
        let run = with_slot-Leaves lib malloc Restores-Scoped behind_checks m w w' r fresh (
          with_block-Leaves lib malloc Restores-Scoped key (behind_key n) _ w w' r f1 (
            with_block-Leaves lib malloc Restores-Scoped c.nonce (behind_nonce n n1) _ w w' r f2 (
              with_block-Leaves lib malloc Restores-Scoped c.ciphertext (behind_ciphertext n n1 n2)
                _ w w' r f3
                (with_block-Leaves lib malloc Restores-Scoped c.tag
                  (decrypt_into lib malloc c n n1 n2 n3) _ w w' r f4 inner)))) in
        (
          w',
          (
            run.0,
            rw (first_elements_filled c.nonce c.ciphertext c.tag v.nonce v.ciphertext v.tag) run.1,
            run.2,
          ),
        )

-- An empty part makes it panic before the C interface is called.
pub decrypt_chunk_empty :
    (lib : OpenSsl) (malloc : Malloc) (m : Memory) (key : Bytes) (c : EncryptedChunk)
    (w : lib.World)
    → (length c.nonce ≡ 0) ⊎ (length c.ciphertext ≡ 0) ⊎ (length c.tag ≡ 0)
    → (m' : Memory) × (decrypt_chunk lib malloc key c (w, m) ≡ (err index_out_of_range, (w, m')))
unfolding decrypt_chunk with_slot
decrypt_chunk_empty lib malloc m key c w h =
    let lent = with_empty m in
    let m' : Memory = record lent { buffers = write lent.buffers m.next none } in
    (m', rw (first_elements_empty c.nonce c.ciphertext c.tag h) refl)
