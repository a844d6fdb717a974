-- ===== src/Daemon/Encrypting.antt =====
-- `EncryptChunk` of cmd/daemon/bridge.go, over a library that keeps to its manual and a `malloc` that
-- serves.
use off_drop.Base.{ℕ, suc, ◌^◌, ◌≤◌, ◌<◌, ◌≡◌, refl, sym, ap, ◌∙◌, arith}
use off_drop.Base.{[], length, none, some, nil_of_length}
use off_drop.Base.Result.{ok}
use off_drop.Protocol.{Bytes}
use off_drop.OpenSsl.{OpenSsl}
use off_drop.OpenSsl.Documented.{Standard, Documented}
use off_drop.Crypto.{EncryptedChunk}
use off_drop.Crypto.Seal.{sealed}
use off_drop.Memory.{Pointer, Memory, Malloc, write}
use off_drop.CApi.Handing.{Serves}
use off_drop.CApi.Chunks.{with_chunk, airdrop_encrypt_chunk_lem}
use off_drop.Daemon.{value, encrypt_into, chunk_of, if_ok}
use off_drop.Daemon.Frame.{Ready}
use off_drop.Daemon.Buffers.{full_buffer, take_out_lem, take_out_empty}
use off_drop.Daemon.Locals.{Restores, Leaks, Leaves}

module _ (lib : OpenSsl) (std : Standard) (doc : Documented lib std) (malloc : Malloc)
    (serves : Serves malloc) where
  module _ (m : Memory) (k : ℕ) (p : Pointer) (on oc ot : ℕ) (key text : Bytes)
      (v : Ready m k p on oc ot key text) where
    -- What the structures hold behind the call.
    slots :
        (c : EncryptedChunk)
        → let ma = with_chunk m on oc ot c in
          (ma.buffers on ≡ some (full_buffer m.next c.nonce))
          × (ma.buffers oc ≡ some (full_buffer (suc m.next) c.ciphertext))
          × (ma.buffers ot ≡ some (full_buffer (suc (suc m.next)) c.tag))
    slots c = (
      unfold write in ground (arith, v.nonce_ciphertext, v.nonce_tag),
      unfold write in ground (arith, v.ciphertext_tag),
      unfold write in ground arith,
    )

    pub encrypt_into-Restores :
        (w : lib.World)
        → 1 ≤ length text
        → length text < 2 ^ 31
        → (nonce : Bytes) × (w' : lib.World) × (length nonce ≡ 12)
          × Leaves lib.World Restores
              (encrypt_into lib malloc k p (length text) on oc ot (w, m))
              m
              (ok (value (sealed std key nonce text)))
              w'
    unfolding encrypt_into if_ok chunk_of
    encrypt_into-Restores w filled small =
        let (nonce, w', size, called) =
          airdrop_encrypt_chunk_lem lib std doc malloc serves m on oc ot v.nonce_slot.0
            v.ciphertext_slot.0 v.tag_slot.0 v.nonce_slot.1 v.ciphertext_slot.1 v.tag_slot.1
            v.nonce_ciphertext v.nonce_tag v.ciphertext_tag k p key text w v.key_there v.text_there
            small in
        let c = sealed std key nonce text in
        let (at_nonce, at_ciphertext, at_tag) = slots c in
        let ma = with_chunk m on oc ot c in
        let mb : Memory = record ma { blocks = write ma.blocks m.next none } in
        let mc : Memory = record mb { blocks = write mb.blocks (suc m.next) none } in
        let md : Memory = record mc { blocks = write mc.blocks (suc (suc m.next)) none } in
        let first : ma.blocks m.next ≡ some c.nonce = unfold write in ground arith in
        let second : mb.blocks (suc m.next) ≡ some c.ciphertext = unfold write in ground arith in
        let third : mc.blocks (suc (suc m.next)) ≡ some c.tag = unfold write in ground arith in
        let wide = std.length-encrypt key nonce text in
        let tag_size = std.length-mac key nonce c.ciphertext in
        let nonce_out =
          take_out_lem lib malloc ma w' on m.next c.nonce at_nonce first (omega (arith, size))
            (omega (arith, size)) in
        let ciphertext_out =
          take_out_lem lib malloc mb w' oc (suc m.next) c.ciphertext at_ciphertext second
            (omega (arith, wide)) (omega (arith, wide)) in
        let tag_out =
          take_out_lem lib malloc mc w' ot (suc (suc m.next)) c.tag at_tag third
            (omega (arith, tag_size)) (omega (arith, tag_size)) in
        (
          nonce,
          w',
          size,
          (
            md,
            rw (called, nonce_out, ciphertext_out, tag_out) refl,
            record {
              blocks = λ a.
                  unfold write in
                  ground (
                    arith,
                    v.fresh m.next (omega arith),
                    v.fresh (suc m.next) (omega arith),
                    v.fresh (suc (suc m.next)) (omega arith),
                  );
              fresh = λ a h. unfold write in ground (arith, v.fresh a (omega arith));
            },
          ),
        )

    -- Of an empty text the block of the ciphertext, which is empty, is not freed.
    pub encrypt_into-Leaks :
        (w : lib.World)
        → text ≡ []
        → (nonce : Bytes) × (w' : lib.World) × (length nonce ≡ 12)
          × Leaves lib.World Leaks
              (encrypt_into lib malloc k p (length text) on oc ot (w, m))
              m
              (ok (value (sealed std key nonce text)))
              w'
    unfolding encrypt_into if_ok chunk_of
    encrypt_into-Leaks w empty =
        let none_there : length text ≡ 0 = ap length empty in
        let (nonce, w', size, called) =
          airdrop_encrypt_chunk_lem lib std doc malloc serves m on oc ot v.nonce_slot.0
            v.ciphertext_slot.0 v.tag_slot.0 v.nonce_slot.1 v.ciphertext_slot.1 v.tag_slot.1
            v.nonce_ciphertext v.nonce_tag v.ciphertext_tag k p key text w v.key_there v.text_there
            (omega (arith, none_there)) in
        let c = sealed std key nonce text in
        let (at_nonce, at_ciphertext, at_tag) = slots c in
        let ma = with_chunk m on oc ot c in
        let mb : Memory = record ma { blocks = write ma.blocks m.next none } in
        let mc : Memory = record mb { blocks = write mb.blocks (suc (suc m.next)) none } in
        let first : ma.blocks m.next ≡ some c.nonce = unfold write in ground arith in
        let third : mb.blocks (suc (suc m.next)) ≡ some c.tag = unfold write in ground arith in
        let nothing : c.ciphertext ≡ [] =
          nil_of_length c.ciphertext (std.length-encrypt key nonce text ∙ none_there) in
        let tag_size = std.length-mac key nonce c.ciphertext in
        let nonce_out =
          take_out_lem lib malloc ma w' on m.next c.nonce at_nonce first (omega (arith, size))
            (omega (arith, size)) in
        let ciphertext_out =
          take_out_empty lib malloc mb w' oc (suc m.next)
            (at_ciphertext ∙ ap (λ (t : Bytes). some (full_buffer (suc m.next) t)) nothing)
          ∙ ap (λ (t : Bytes). (ok t, (w', mb))) (sym nothing) in
        let tag_out =
          take_out_lem lib malloc mb w' ot (suc (suc m.next)) c.tag at_tag third
            (omega (arith, tag_size)) (omega (arith, tag_size)) in
        let stays : mc.blocks (suc m.next) ≡ some c.ciphertext = unfold write in ground arith in
        (
          nonce,
          w',
          size,
          (
            mc,
            rw (called, nonce_out, ciphertext_out, tag_out) refl,
            record {
              lost = suc m.next;
              new = omega arith;
              was = v.fresh (suc m.next) (omega arith);
              stays = stays ∙ ap some nothing;
            },
          ),
        )
