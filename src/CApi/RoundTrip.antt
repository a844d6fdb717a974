-- ===== src/CApi/RoundTrip.antt =====
-- A text goes through `airdrop_encrypt_chunk` and `airdrop_decrypt_chunk` of core/src/c_api.cpp and
-- comes back, and `airdrop_free_buffer` gives all the blocks back.
use off_drop.Base.{ℕ, suc, ◌^◌, ◌<◌, ◌≡◌, refl, sym, ◌∙◌, subst, arith, length, some, none}
use off_drop.Base.Result.{ok}
use off_drop.Protocol.{Bytes}
use off_drop.OpenSsl.{OpenSsl}
use off_drop.OpenSsl.Documented.{Standard, Documented}
use off_drop.Crypto.{EncryptedChunk}
use off_drop.Crypto.Seal.{sealed, opened-sealed}
use off_drop.Memory.{Pointer, AirdropBuffer, Memory, Malloc, write, load}
use off_drop.Memory.Writes.{write_self, write_other}
use off_drop.CApi.{AirdropStatus, Calls, airdrop_ok}
use off_drop.CApi.{airdrop_encrypt_chunk, airdrop_decrypt_chunk}
use off_drop.CApi.Handing.{
  Serves, IsFresh, buffer_of, handed, handed-IsFresh, load-handed, load-handed_new,
  airdrop_free_buffer_lem,
}
use off_drop.Base.Action.{◌>>◌}
use off_drop.CApi.Chunks.{with_chunk, airdrop_encrypt_chunk_lem}
use off_drop.CApi.Decrypting.{airdrop_decrypt_chunk-opened}
use off_drop.CApi.{airdrop_free_buffer}
use off_drop.CApi.Request.{Request, IsRequest}

module _ (lib : OpenSsl) (std : Standard) (doc : Documented lib std) (malloc : Malloc)
    (serves : Serves malloc) (m : Memory) (fresh : IsFresh m) (q : Request) (key text : Bytes)
    (small : length text < 2 ^ 31) (v : IsRequest m q key text) where
  abbrev encrypt_call : Calls lib malloc AirdropStatus
  encrypt_call =
      airdrop_encrypt_chunk lib malloc (some q.key_at) q.text_at (length text) (some q.nonce_out)
        (some q.ciphertext_out) (some q.tag_out)

  abbrev after_encrypt : EncryptedChunk → Memory
  after_encrypt c = with_chunk m q.nonce_out q.ciphertext_out q.tag_out c

  encrypt_call_lem :
      (w : lib.World)
      → (nonce : Bytes) × (w' : lib.World) × (length nonce ≡ 12)
        × (encrypt_call (w, m) ≡ (ok airdrop_ok, (w', after_encrypt (sealed std key nonce text))))
  encrypt_call_lem w =
      airdrop_encrypt_chunk_lem lib std doc malloc serves m q.nonce_out q.ciphertext_out q.tag_out
        v.nonce_slot.0 v.ciphertext_slot.0 v.tag_slot.0 v.nonce_slot.1 v.ciphertext_slot.1
        v.tag_slot.1 v.nonce_ciphertext v.nonce_tag v.ciphertext_tag q.key_at q.text_at key text w
        v.key_there v.text_there small

  module _ (c : EncryptedChunk) where
    abbrev m1 : Memory
    m1 = handed m q.nonce_out c.nonce

    abbrev m2 : Memory
    m2 = handed m1 q.ciphertext_out c.ciphertext

    fresh1 : IsFresh m1
    fresh1 = handed-IsFresh m q.nonce_out c.nonce fresh

    fresh2 : IsFresh m2
    fresh2 = handed-IsFresh m1 q.ciphertext_out c.ciphertext fresh1

    -- The buffers that the caller finds in its structures.
    slots :
        ((after_encrypt c).buffers q.nonce_out ≡ some (buffer_of m c.nonce))
        × ((after_encrypt c).buffers q.ciphertext_out ≡ some (buffer_of m1 c.ciphertext))
        × ((after_encrypt c).buffers q.tag_out ≡ some (buffer_of m2 c.tag))
        × ((after_encrypt c).buffers q.plaintext_out ≡ some v.plaintext_slot.0)
    slots =
        let tag_buf = some (buffer_of m2 c.tag) in
        let ciphertext_buf = some (buffer_of m1 c.ciphertext) in
        let nonce_buf = some (buffer_of m c.nonce) in
        (
          write_other m2.buffers q.tag_out q.nonce_out tag_buf (λ e. v.nonce_tag (sym e))
              ∙ write_other m1.buffers q.ciphertext_out q.nonce_out ciphertext_buf
                  (λ e. v.nonce_ciphertext (sym e))
              ∙ write_self m.buffers q.nonce_out nonce_buf,
          write_other m2.buffers q.tag_out q.ciphertext_out tag_buf (λ e. v.ciphertext_tag (sym e))
              ∙ write_self m1.buffers q.ciphertext_out ciphertext_buf,
          write_self m2.buffers q.tag_out tag_buf,
          write_other m2.buffers q.tag_out q.plaintext_out tag_buf v.tag_plaintext
              ∙ write_other m1.buffers q.ciphertext_out q.plaintext_out ciphertext_buf
                  v.ciphertext_plaintext
              ∙ write_other m.buffers q.nonce_out q.plaintext_out nonce_buf v.nonce_plaintext
              ∙ v.plaintext_slot.1,
        )

    kept :
        (p : Pointer) (n : ℕ) (got : Bytes)
        → load p n m ≡ ok got
        → load p n (after_encrypt c) ≡ ok got
    kept p n got h = load-handed m2 q.tag_out c.tag p n got fresh2 (
        load-handed m1 q.ciphertext_out c.ciphertext p n got fresh1
          (load-handed m q.nonce_out c.nonce p n got fresh h))

    nonce_loads : load (some m.next) (length c.nonce) (after_encrypt c) ≡ ok c.nonce
    nonce_loads = load-handed m2 q.tag_out c.tag (some m.next) _ c.nonce fresh2 (
        load-handed m1 q.ciphertext_out c.ciphertext (some m.next) _ c.nonce fresh1
          (load-handed_new m q.nonce_out c.nonce))

    ciphertext_loads : load (some m1.next) (length c.ciphertext) (after_encrypt c) ≡ ok c.ciphertext
    ciphertext_loads =
        load-handed m2 q.tag_out c.tag (some m1.next) _ c.ciphertext fresh2
          (load-handed_new m1 q.ciphertext_out c.ciphertext)

    tag_loads : load (some m2.next) (length c.tag) (after_encrypt c) ≡ ok c.tag
    tag_loads = load-handed_new m2 q.tag_out c.tag

  -- A text below 2 GB is encrypted into three new buffers, and what the caller finds in them decrypts
  -- to the text again in a fourth, whatever the library did in between: both calls return AIRDROP_OK.
  -- The library keeps to its manual and `malloc` serves. The key of 32 bytes and the text are in the
  -- caller's blocks, and its four structures are different.
  pub airdrop_decrypt_chunk-airdrop_encrypt_chunk :
      (w x : lib.World)
      → (nonce ciphertext tag out : AirdropBuffer) × (w1 w2 : lib.World) × (ma mb : Memory)
        × (airdrop_encrypt_chunk lib malloc
              (some q.key_at)
              q.text_at
              (length text)
              (some q.nonce_out)
              (some q.ciphertext_out)
              (some q.tag_out)
              (w, m)
            ≡ (ok airdrop_ok, (w1, ma)))
        × (ma.buffers q.nonce_out ≡ some nonce)
        × (ma.buffers q.ciphertext_out ≡ some ciphertext)
        × (ma.buffers q.tag_out ≡ some tag)
        × (airdrop_decrypt_chunk lib malloc
              (some q.key_at)
              nonce.data_ptr
              nonce.len
              ciphertext.data_ptr
              ciphertext.len
              tag.data_ptr
              tag.len
              (some q.plaintext_out)
              (x, ma)
            ≡ (ok airdrop_ok, (w2, mb)))
        × (mb.buffers q.plaintext_out ≡ some out)
        × (out.len ≡ length text)
        × (load out.data_ptr out.len mb ≡ ok text)
  airdrop_decrypt_chunk-airdrop_encrypt_chunk w x =
      let (nonce, w1, size, done) = encrypt_call_lem w in
      let c = sealed std key nonce text in
      let (at_nonce, at_ciphertext, at_tag, at_out) = slots c in
      let ma = after_encrypt c in
      let short : length c.ciphertext < 2 ^ 31 =
        subst (λ (n : ℕ). n < 2 ^ 31) (sym (std.length-encrypt key nonce text)) small in
      let (w2, opens) =
        airdrop_decrypt_chunk-opened lib std doc malloc serves ma q.key_at q.plaintext_out
          (some m.next) (some (m1 c).next) (some (m2 c).next) key c x
          (record {
            key_there = kept c (some q.key_at) 32 key v.key_there;
            nonce_there = nonce_loads c;
            ciphertext_there = ciphertext_loads c;
            tag_there = tag_loads c;
            slot = (v.plaintext_slot.0, at_out);
            small = short;
          }) in
      let text_back = opened-sealed lib std doc key nonce text size in
      (
        buffer_of m c.nonce,
        buffer_of (m1 c) c.ciphertext,
        buffer_of (m2 c) c.tag,
        buffer_of ma text,
        w1,
        w2,
        ma,
        handed ma q.plaintext_out text,
        done,
        at_nonce,
        at_ciphertext,
        at_tag,
        opens ∙ rw text_back refl,
        write_self ma.buffers q.plaintext_out (some (buffer_of ma text)),
        refl,
        load-handed_new ma q.plaintext_out text,
      )

  -- The three blocks are given back one after the other.
  frees :
      (c : EncryptedChunk)
      → (mf : Memory) × ((airdrop_free_buffer (buffer_of m c.nonce)
              >> airdrop_free_buffer (buffer_of (m1 c) c.ciphertext)
              >> airdrop_free_buffer (buffer_of (m2 c) c.tag))
            (after_encrypt c)
          ≡ (ok tt, mf))
        × ((a : ℕ) → mf.blocks a ≡ m.blocks a)
  frees c =
      let ma = after_encrypt c in
      let mb : Memory = record ma { blocks = write ma.blocks m.next none } in
      let mc : Memory = record mb { blocks = write mb.blocks (suc m.next) none } in
      let there1 : ma.blocks m.next ≡ some c.nonce = unfold write in ground arith in
      let there2 : mb.blocks (suc m.next) ≡ some c.ciphertext = unfold write in ground arith in
      let there3 : mc.blocks (suc (suc m.next)) ≡ some c.tag = unfold write in ground arith in
      let first = airdrop_free_buffer_lem ma m.next (length c.nonce) c.nonce there1 in
      let second =
        airdrop_free_buffer_lem mb (suc m.next) (length c.ciphertext) c.ciphertext there2 in
      let third = airdrop_free_buffer_lem mc (suc (suc m.next)) (length c.tag) c.tag there3 in
      (
        record mc { blocks = write mc.blocks (suc (suc m.next)) none },
        rw (first, second, third) refl,
        λ a.
            unfold write in
            ground (arith, fresh m.next, fresh (suc m.next), fresh (suc (suc m.next))),
      )

  -- The buffers that `airdrop_encrypt_chunk` hands out for a text below 2 GB can be freed, each once,
  -- and then every block is as it was before the call. The library keeps to its manual and `malloc`
  -- serves, the key of 32 bytes and the text are in the caller's blocks, and its structures are
  -- different.
  pub airdrop_free_buffer-airdrop_encrypt_chunk :
      (w : lib.World)
      → (nonce ciphertext tag : AirdropBuffer) × (w1 : lib.World) × (ma mb : Memory)
        × (airdrop_encrypt_chunk lib malloc
              (some q.key_at)
              q.text_at
              (length text)
              (some q.nonce_out)
              (some q.ciphertext_out)
              (some q.tag_out)
              (w, m)
            ≡ (ok airdrop_ok, (w1, ma)))
        × (ma.buffers q.nonce_out ≡ some nonce)
        × (ma.buffers q.ciphertext_out ≡ some ciphertext)
        × (ma.buffers q.tag_out ≡ some tag)
        × ((airdrop_free_buffer nonce >> airdrop_free_buffer ciphertext >> airdrop_free_buffer tag)
              ma
            ≡ (ok tt, mb))
        × ((a : ℕ) → mb.blocks a ≡ m.blocks a)
  airdrop_free_buffer-airdrop_encrypt_chunk w =
      let (nonce, w1, size, done) = encrypt_call_lem w in
      let c = sealed std key nonce text in
      let (at_nonce, at_ciphertext, at_tag, _) = slots c in
      let (mb, freed, same) = frees c in
      (
        buffer_of m c.nonce,
        buffer_of (m1 c) c.ciphertext,
        buffer_of (m2 c) c.tag,
        w1,
        after_encrypt c,
        mb,
        done,
        at_nonce,
        at_ciphertext,
        at_tag,
        freed,
        same,
      )
