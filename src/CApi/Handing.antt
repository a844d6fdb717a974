-- ===== src/CApi/Handing.antt =====
-- `*out = MakeBuffer(bytes)` of core/src/c_api.cpp, where `malloc` serves it.
use off_drop.Base.{ℕ, suc, ◌≤◌, ◌≡◌, refl, ◌∙◌, arith, [], ◌∷◌, length, nil_of_length, none, some}
use off_drop.Base.Result.{ok}
use off_drop.Protocol.{Bytes}
use off_drop.OpenSsl.{OpenSsl}
use off_drop.Memory.{Pointer, AirdropBuffer, Memory, Malloc, write, load}
use off_drop.Memory.Writes.{
  write_self, write_other, write-write, apart, load_whole, load_kept, copy_to_whole, put_buffer_lem,
  free_block_lem,
}
use off_drop.CApi.{filled, make_buffer, hand_out, airdrop_free_buffer}

-- `malloc` never fails, and gives as many bytes as it was asked for.
abbrev pub Serves : Malloc → Type 0
Serves malloc = (n k : ℕ) → (raw : Bytes) × (malloc n k ≡ some raw) × (length raw ≡ n)

-- No block has a number that has not been given.
abbrev pub IsFresh : Memory → Type 0
IsFresh m = (a : ℕ) → m.next ≤ a → m.blocks a ≡ none

abbrev pub buffer_of : Memory → Bytes → AirdropBuffer
buffer_of m bytes = record { data_ptr = some m.next; len = length bytes }

-- The memory with one more block, and a buffer that names it.
abbrev pub handed : Memory → ℕ → Bytes → Memory
handed m out bytes = record {
  next = suc m.next;
  blocks = write m.blocks m.next (some bytes);
  buffers = write m.buffers out (some (buffer_of m bytes));
}

pub handed-IsFresh :
    (m : Memory) (out : ℕ) (bytes : Bytes) → IsFresh m → IsFresh (handed m out bytes)
handed-IsFresh m out bytes fresh a h =
    write_other m.blocks m.next a (some bytes) (omega arith) ∙ fresh a (omega arith)

pub block-handed :
    (m : Memory) (out : ℕ) (bytes : Bytes) (a : ℕ) (old : Bytes)
    → IsFresh m
    → m.blocks a ≡ some old
    → (handed m out bytes).blocks a ≡ some old
block-handed m out bytes a old fresh there =
    write_other m.blocks m.next a (some bytes)
      (apart m.blocks m.next a old (fresh m.next (omega arith)) there)
    ∙ there

-- What is read of the memory before is read of it afterwards.
pub load-handed :
    (m : Memory) (out : ℕ) (bytes : Bytes) (p : Pointer) (n : ℕ) (got : Bytes)
    → IsFresh m
    → load p n m ≡ ok got
    → load p n (handed m out bytes) ≡ ok got
load-handed m out bytes p n got fresh =
    load_kept m (handed m out bytes) p n got
      (λ a old there. block-handed m out bytes a old fresh there)

pub load-handed_new :
    (m : Memory) (out : ℕ) (bytes : Bytes)
    → load (some m.next) (length bytes) (handed m out bytes) ≡ ok bytes
load-handed_new m out bytes =
    load_whole (handed m out bytes) m.next bytes (write_self m.blocks m.next (some bytes))

module _ (malloc : Malloc) (serves : Serves malloc) where
  make_buffer_lem :
      (m : Memory) (bytes : Bytes)
      → make_buffer malloc bytes m ≡ (
        ok (buffer_of m bytes),
        record m { next = suc m.next; blocks = write m.blocks m.next (some bytes) },
      )
  unfolding make_buffer filled
  make_buffer_lem m [] =
      let (raw, got, size) = serves 0 m.next in rw (got, nil_of_length raw size) refl
  make_buffer_lem m (b ∷ bytes) =
      let (raw, got, size) = serves (length (b ∷ bytes)) m.next in
      let placed : Memory = record m {
        next = suc m.next;
        blocks = write m.blocks m.next (some raw);
      } in
      let copied =
        copy_to_whole placed m.next (b ∷ bytes) raw (write_self m.blocks m.next (some raw)) size in
      rw (got, copied, write-write) refl

  pub hand_out_lem :
      (lib : OpenSsl) (w : lib.World) (m : Memory) (out : ℕ) (old : AirdropBuffer) (bytes : Bytes)
      → m.buffers out ≡ some old
      → hand_out lib malloc (some out) bytes (w, m) ≡ (ok tt, (w, handed m out bytes))
  unfolding hand_out
  hand_out_lem lib w m out old bytes there =
      let placed : Memory = record m {
        next = suc m.next;
        blocks = write m.blocks m.next (some bytes);
      } in
      rw (make_buffer_lem m bytes, put_buffer_lem placed out old (buffer_of m bytes) there) refl

pub airdrop_free_buffer_lem :
    (m : Memory) (a len : ℕ) (block : Bytes)
    → m.blocks a ≡ some block
    → airdrop_free_buffer (record { data_ptr = some a; len = len }) m
      ≡ (ok tt, record m { blocks = write m.blocks a none })
unfolding airdrop_free_buffer
airdrop_free_buffer_lem m a len block there = rw there (free_block_lem m a block)
