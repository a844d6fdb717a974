-- ===== src/Daemon/Frame.antt =====
-- The local variables of `EncryptChunk` of cmd/daemon/bridge.go, behind the pointers that it hands to
-- the C interface.
use off_drop.Base.{ℕ, suc, ◌≡◌, ◌≢◌, refl, sym, ap, ◌∙◌, arith, [], length, none, some}
use off_drop.Base.Result.{ok}
use off_drop.Protocol.{Bytes}
use off_drop.Memory.{Pointer, AirdropBuffer, Memory, write, load}
use off_drop.Memory.Writes.{write_self, write_other, apart, load_whole, load_kept}
use off_drop.CApi.Handing.{IsFresh}
use off_drop.Daemon.{with_bytes, with_empty}
use off_drop.Daemon.Locals.{with_bytes-IsFresh, with_empty-IsFresh}

-- The locals are in their places: the key, the text, and three structures.
pub record Ready (m : Memory) (k : ℕ) (p : Pointer) (on oc ot : ℕ) (key text : Bytes) : Type 0 where
  pub fresh : IsFresh m
  pub key_there : load (some k) 32 m ≡ ok key
  pub text_there : load p (length text) m ≡ ok text
  pub nonce_slot : (old : AirdropBuffer) × (m.buffers on ≡ some old)
  pub ciphertext_slot : (old : AirdropBuffer) × (m.buffers oc ≡ some old)
  pub tag_slot : (old : AirdropBuffer) × (m.buffers ot ≡ some old)
  pub nonce_ciphertext : on ≢ oc
  pub nonce_tag : on ≢ ot
  pub ciphertext_tag : oc ≢ ot

-- The memory with the locals of `EncryptChunk` up to the key.
abbrev pub with_locals : Memory → Bytes → Memory
with_locals m key = with_bytes (with_empty (with_empty (with_empty m))) key

locals-IsFresh : (m : Memory) (key : Bytes) → IsFresh m → IsFresh (with_locals m key)
locals-IsFresh m key fresh =
    let m1 = with_empty m in
    let m2 = with_empty m1 in
    let fresh2 = with_empty-IsFresh m1 (with_empty-IsFresh m fresh) in
    with_bytes-IsFresh (with_empty m2) key (with_empty-IsFresh m2 fresh2)

abbrev pub empty_buffer : AirdropBuffer
empty_buffer = record { data_ptr = none; len = 0 }

pub locals-Ready :
    (m : Memory) (key : Bytes)
    → IsFresh m
    → length key ≡ 32
    → let n = m.next in
      Ready (with_locals m key) (suc (suc (suc n))) none n (suc n) (suc (suc n)) key []
locals-Ready m key fresh wide =
    let m4 = with_locals m key in
    let n = m.next in
    let key_block : m4.blocks (suc (suc (suc n))) ≡ some key = unfold write in ground arith in
    record {
      fresh = locals-IsFresh m key fresh;
      key_there =
          ap (λ (t : ℕ). load (some (suc (suc (suc n)))) t m4) (sym wide)
          ∙ load_whole m4 _ key key_block;
      text_there = unfold load in refl;
      nonce_slot = (empty_buffer, unfold write in ground arith);
      ciphertext_slot = (empty_buffer, unfold write in ground arith);
      tag_slot = (empty_buffer, unfold write in ground arith);
      nonce_ciphertext = omega arith;
      nonce_tag = omega arith;
      ciphertext_tag = omega arith;
    }

-- What is read of the memory is read of it with one more block.
pub load-with_bytes :
    (m : Memory) (bytes : Bytes) (p : Pointer) (n : ℕ) (got : Bytes)
    → IsFresh m
    → load p n m ≡ ok got
    → load p n (with_bytes m bytes) ≡ ok got
load-with_bytes m bytes p n got fresh = load_kept m (with_bytes m bytes) p n got λ a old there.
    write_other m.blocks m.next a (some bytes)
      (apart m.blocks m.next a old (fresh m.next (omega arith)) there)
    ∙ there

pub load-with_bytes_new :
    (m : Memory) (bytes : Bytes) → load (some m.next) (length bytes) (with_bytes m bytes) ≡ ok bytes
load-with_bytes_new m bytes =
    load_whole (with_bytes m bytes) m.next bytes (write_self m.blocks m.next (some bytes))

-- The text is the last of them.
pub text-Ready :
    (m : Memory) (k on oc ot : ℕ) (key text : Bytes)
    → Ready m k none on oc ot key []
    → Ready (with_bytes m text) k (some m.next) on oc ot key text
text-Ready m k on oc ot key text v = record {
  fresh = with_bytes-IsFresh m text v.fresh;
  key_there = load-with_bytes m text (some k) 32 key v.fresh v.key_there;
  text_there = load-with_bytes_new m text;
  nonce_slot = v.nonce_slot;
  ciphertext_slot = v.ciphertext_slot;
  tag_slot = v.tag_slot;
  nonce_ciphertext = v.nonce_ciphertext;
  nonce_tag = v.nonce_tag;
  ciphertext_tag = v.ciphertext_tag;
}
