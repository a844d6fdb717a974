-- ===== src/Memory.antt =====
-- The memory that the C interface shares with its caller: blocks of bytes, which `malloc` or the
-- caller made, and the caller's `airdrop_buffer` structures. A pointer is null or the start of a
-- block.
pub mod Writes
use off_drop.Base.{ℕ, ◌+◌, ◌≤◌, ◌≡◌, List, [], ◌∷◌, ◌++◌, length, take, drop, Option, none, some}
use off_drop.Base.{Bool, true, false, ltb, ◌==◌, if◌then◌else◌}
use off_drop.Base.Result.{Result, ok, fault, ◌>>=◌}
use off_drop.Base.Action.{Action}
use off_drop.Base.Action
use off_drop.Protocol.{Bytes}

abbrev pub Pointer : Type 0
Pointer = Option ℕ

abbrev pub is_null : Pointer → Bool
is_null none = true
is_null (some a) = false

pub record AirdropBuffer : Type 0 where
  pub data_ptr : Pointer
  pub len : ℕ

abbrev pub Blocks : Type 0
Blocks = ℕ → Option Bytes

-- A block is made, overwritten or given back.
unfoldable pub write : {A : Type 0} → (ℕ → Option A) → ℕ → Option A → ℕ → Option A
write cells a v b = if a == b then v else cells b

-- The blocks are numbered as they are made. No number from `next` on has been given yet.
pub record Memory : Type 0 where
  pub next : ℕ
  pub blocks : Blocks
  pub buffers : ℕ → Option AirdropBuffer

-- `malloc` for so many bytes, as the block with this number: what stands in the block, or null.
abbrev pub Malloc : Type 0
Malloc = ℕ → ℕ → Option Bytes

-- The first `n` bytes behind a pointer. A read of memory that is no block is undefined.
unfoldable pub load_block : Option Bytes → ℕ → Result Bytes
load_block none n = fault
load_block (some block) n = if ltb (length block) n then fault else ok (take n block)

unfoldable pub load : Pointer → ℕ → Memory → Result Bytes
unfolding load_block
load none n m = if n == 0 then ok [] else fault
load (some a) n m = if n == 0 then ok [] else load_block (m.blocks a) n

-- `std::string(p)`: the bytes before the first zero. Without a zero the read leaves the block.
unfoldable pub before_zero : Bytes → Result Bytes
before_zero [] = fault
before_zero (b ∷ bytes) = if b == 0 then ok [] else (before_zero bytes >>= λ rest. ok (b ∷ rest))

unfoldable pub load_string : Pointer → Memory → Result Bytes
unfolding before_zero
load_string none m = fault
load_string (some a) m = elim (m.blocks a) [ none ↦ fault | some block ↦ before_zero block ]

-- `memcpy` to the start of a block, which keeps what stands behind.
pub overwrite : Bytes → Bytes → Result Bytes
overwrite bytes block =
    if ltb (length block) (length bytes) then fault else ok (bytes ++ drop (length bytes) block)

pub copy_block : Option Bytes → Bytes → Result Bytes
unfolding overwrite
copy_block none bytes = fault
copy_block (some block) bytes = overwrite bytes block

pub copy_to : Pointer → Bytes → Action Memory (Unit {0})
unfolding copy_block
copy_to none bytes m = (fault, m)
copy_to (some a) bytes m =
    Action.continue (copy_block (m.blocks a) bytes, m)
      λ block n. (ok tt, record n { blocks = write n.blocks a (some block) })

-- `*out = buf;`
pub put_slot : Option AirdropBuffer → ℕ → AirdropBuffer → Action Memory (Unit {0})
put_slot none a buf m = (fault, m)
put_slot (some old) a buf m = (ok tt, record m { buffers = write m.buffers a (some buf) })

pub put_buffer : Pointer → AirdropBuffer → Action Memory (Unit {0})
unfolding put_slot
put_buffer none buf m = (fault, m)
put_buffer (some a) buf m = put_slot (m.buffers a) a buf m

-- `free` of the start of a block.
pub free_block : Option Bytes → ℕ → Action Memory (Unit {0})
free_block none a m = (fault, m)
free_block (some block) a m = (ok tt, record m { blocks = write m.blocks a none })
