-- ===== src/CApi/Returns.antt =====
-- core/src/c_api.cpp over any library, whatever its calls return, and over any `malloc`, which may
-- fail each time: the calls on chunks come back with a status.
use off_drop.Base.{
  ℕ, suc, ◌≤◌, ◌≡◌, refl, ap, ◌∙◌, sym, [], ◌∷◌, ◌++◌, length, drop, Option, none, some,
}
use off_drop.Base.Result.{Result, ok}
use off_drop.Base.Ends.{Ends, returns, throws}
use off_drop.Base.Action
use off_drop.Base.Action.{◌>>◌}
use off_drop.Protocol.{Bytes}
use off_drop.OpenSsl.{OpenSsl}
use off_drop.Crypto.{EncryptedChunk, encrypt_chunk, decrypt_chunk}
use off_drop.Crypto.Defined.{WritesWithin, encrypt_chunk-Ends, decrypt_chunk-Ends}
use off_drop.Memory.{Pointer, AirdropBuffer, Memory, Malloc, write, load}
use off_drop.Memory.Writes.{copy_to_room, put_buffer_lem, write_self, write_other}
use off_drop.CApi.{
  AirdropStatus, airdrop_ok, airdrop_err_invalid_arg, airdrop_err_crypto, caught, guarded, filled,
  make_buffer, hand_out, encrypt_body, decrypt_body, airdrop_encrypt_chunk, airdrop_decrypt_chunk,
}
use native.Mathlib.Decide.{ℕ_discrete}

-- `malloc` fails, or gives as many bytes as it was asked for.
abbrev pub Gives : Malloc → Type 0
Gives malloc = (n k : ℕ) (raw : Bytes) → malloc n k ≡ some raw → n ≤ length raw

-- The caller's structure is there.
abbrev pub Slot : Memory → ℕ → Type 0
Slot m a = (old : AirdropBuffer) × (m.buffers a ≡ some old)

-- What is null, or else can be read, or written to.
abbrev pub Readable : Memory → Pointer → ℕ → Type 0
Readable m none n = Unit {0}
Readable m (some a) n = (got : Bytes) × (load (some a) n m ≡ ok got)

abbrev pub Writable : Memory → Pointer → Type 0
Writable m none = Unit {0}
Writable m (some a) = Slot m a

write-Slot :
    (m : Memory) (a b : ℕ) (buf : AirdropBuffer)
    → Slot m b
    → Slot (record m { buffers = write m.buffers a (some buf) }) b
write-Slot m a b buf slot = elim (ℕ_discrete a b) [
  | yes same ↦
      (buf, ap (write m.buffers a (some buf)) (sym same) ∙ write_self m.buffers a (some buf))
  | no ne ↦ (slot.0, write_other m.buffers a b (some buf) ne ∙ slot.1)
]

module _ (lib : OpenSsl) (malloc : Malloc) (gives : Gives malloc) where
  -- A buffer is made, with a null pointer if `malloc` failed.
  filled_made :
      (bytes : Bytes) (o : Option Bytes) (m : Memory)
      → ((raw : Bytes) → o ≡ some raw → length bytes ≤ length raw)
      → (buf : AirdropBuffer) × (m' : Memory) × (filled bytes o m ≡ (ok buf, m'))
        × (m'.buffers ≡ m.buffers)
  unfolding filled
  filled_made bytes none m enough = (record { data_ptr = none; len = length bytes }, m, refl, refl)
  filled_made [] (some raw) m enough = (
    record { data_ptr = some m.next; len = 0 },
    record m { next = suc m.next; blocks = write m.blocks m.next (some raw) },
    refl,
    refl,
  )
  filled_made (b ∷ bytes) (some raw) m enough =
      let src : Bytes = b ∷ bytes in
      let placed : Memory = record m {
        next = suc m.next;
        blocks = write m.blocks m.next (some raw);
      } in
      let copied =
        copy_to_room placed m.next src raw (write_self m.blocks m.next (some raw))
          (enough raw refl) in
      (
        record { data_ptr = some m.next; len = length src },
        record placed { blocks = write placed.blocks m.next (some (src ++ drop (length src) raw)) },
        rw copied refl,
        refl,
      )

  hand_out_returns :
      (w : lib.World) (m : Memory) (out : ℕ) (bytes : Bytes)
      → Slot m out
      → (m' : Memory) × (hand_out lib malloc (some out) bytes (w, m) ≡ (ok tt, (w, m')))
        × ((a : ℕ) → Slot m a → Slot m' a)
  unfolding hand_out make_buffer
  hand_out_returns w m out bytes (old, there) =
      let (buf, m1, made, same) =
        filled_made bytes (malloc (length bytes) m.next) m (gives (length bytes) m.next) in
      let there1 : m1.buffers out ≡ some old =
        ap (λ (b : ℕ → Option AirdropBuffer). b out) same ∙ there in
      (
        record m1 { buffers = write m1.buffers out (some buf) },
        rw (made, put_buffer_lem m1 out old buf there1) refl,
        λ a (slot, at).
            write-Slot m1 out a buf (slot, ap (λ (b : ℕ → Option AirdropBuffer). b a) same ∙ at),
      )

  -- A call that comes back with a status.
  abbrev pub ComesBack : Result AirdropStatus × (lib.World × Memory) → Type 0
  ComesBack call = (status : AirdropStatus) × (s : lib.World × Memory) × (call ≡ (ok status, s))

  hand_chunk :
      (x : Result EncryptedChunk × lib.World) (m : Memory) (on oc ot : ℕ)
      → Ends (λ c w. Unit {0}) x
      → Slot m on
      → Slot m oc
      → Slot m ot
      → ComesBack (
          caught airdrop_err_crypto (
            Action.continue
              (x.0, (x.1, m))
              (λ enc.
                hand_out lib malloc (some on) enc.nonce
                >> (hand_out lib malloc (some oc) enc.ciphertext
                    >> hand_out lib malloc (some ot) enc.tag))))
  unfolding caught
  hand_chunk x m on oc ot (throws e w) at_on at_oc at_ot = (airdrop_err_crypto, (w, m), refl)
  hand_chunk x m on oc ot (returns c w _) at_on at_oc at_ot =
      let (m1, first, keep1) = hand_out_returns w m on c.nonce at_on in
      let (m2, second, keep2) = hand_out_returns w m1 oc c.ciphertext (keep1 oc at_oc) in
      let (m3, third, _) = hand_out_returns w m2 ot c.tag (keep2 ot (keep1 ot at_ot)) in
      (airdrop_ok, (w, m3), rw (first, second, third) refl)

  hand_text :
      (x : Result Bytes × lib.World) (m : Memory) (op : ℕ)
      → Ends (λ c w. Unit {0}) x
      → Slot m op
      → ComesBack (
          caught airdrop_err_crypto
            (Action.continue (x.0, (x.1, m)) (λ text. hand_out lib malloc (some op) text)))
  unfolding caught
  hand_text x m op (throws e w) at_op = (airdrop_err_crypto, (w, m), refl)
  hand_text x m op (returns text w _) at_op =
      let (m1, first, _) = hand_out_returns w m op text at_op in
      (airdrop_ok, (w, m1), rw first refl)

  module _ (within : WritesWithin lib) where
    -- `airdrop_encrypt_chunk` comes back with a status, for null pointers and others, whatever the
    -- library's calls return, and whether or not `malloc` serves. A pointer that is not null leads to
    -- 32 bytes for the key, to the text, or to a structure; a block of `malloc` is as long as it was
    -- asked for, and a cipher writes no more than it is given.
    pub airdrop_encrypt_chunk_returns :
        (key text nonce ciphertext tag : Pointer) (len : ℕ) (w : lib.World) (m : Memory)
        → Readable m key 32
        → (got : Bytes) × (load text len m ≡ ok got)
        → Writable m nonce
        → Writable m ciphertext
        → Writable m tag
        → ComesBack (airdrop_encrypt_chunk lib malloc key text len nonce ciphertext tag (w, m))
    unfolding airdrop_encrypt_chunk guarded encrypt_body
    airdrop_encrypt_chunk_returns none text on oc ot len w m k p a b c =
        (airdrop_err_invalid_arg, (w, m), refl)
    airdrop_encrypt_chunk_returns (some k) text none oc ot len w m _ p a b c =
        (airdrop_err_invalid_arg, (w, m), refl)
    airdrop_encrypt_chunk_returns (some k) text (some on) none ot len w m _ p a b c =
        (airdrop_err_invalid_arg, (w, m), refl)
    airdrop_encrypt_chunk_returns (some k) text (some on) (some oc) none len w m _ p a b c =
        (airdrop_err_invalid_arg, (w, m), refl)
    airdrop_encrypt_chunk_returns (some k) text (some on) (some oc) (some ot) len w m
          (key, key_there) (got, text_there) a b c =
        let (status, s, run) =
          hand_chunk (encrypt_chunk lib key got w) m on oc ot
            (encrypt_chunk-Ends lib within key got w) a b c in
        (status, s, rw (key_there, text_there) run)

    -- `airdrop_decrypt_chunk` comes back with a status, for any chunk, null pointers and others,
    -- whatever the library's calls return, and whether or not `malloc` serves. The three parts of
    -- the chunk can be read, a pointer that is not null leads to 32 bytes for the key, or to a
    -- structure; a block of `malloc` is as long as it was asked for, and a cipher writes no more
    -- than it is given.
    pub airdrop_decrypt_chunk_returns :
        (key nonce ciphertext tag plaintext : Pointer) (n c t : ℕ) (w : lib.World) (m : Memory)
        → Readable m key 32
        → (got : Bytes) × (load nonce n m ≡ ok got)
        → (got : Bytes) × (load ciphertext c m ≡ ok got)
        → (got : Bytes) × (load tag t m ≡ ok got)
        → Writable m plaintext
        → ComesBack
            (airdrop_decrypt_chunk lib malloc key nonce n ciphertext c tag t plaintext (w, m))
    unfolding airdrop_decrypt_chunk guarded decrypt_body
    airdrop_decrypt_chunk_returns none pn pc pt op n c t w m _ a b d slot =
        (airdrop_err_invalid_arg, (w, m), refl)
    airdrop_decrypt_chunk_returns (some k) pn pc pt none n c t w m _ a b d slot =
        (airdrop_err_invalid_arg, (w, m), refl)
    airdrop_decrypt_chunk_returns (some k) pn pc pt (some op) n c t w m (key, key_there)
          (nonce, at_nonce) (ciphertext, at_ciphertext) (tag, at_tag) slot =
        let chunk : EncryptedChunk = record { nonce = nonce; ciphertext = ciphertext; tag = tag } in
        let (status, s, run) =
          hand_text (decrypt_chunk lib key chunk w) m op (decrypt_chunk-Ends lib within key chunk w)
            slot in
        (status, s, rw (key_there, at_nonce, at_ciphertext, at_tag) run)
