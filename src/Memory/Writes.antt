-- ===== src/Memory/Writes.antt =====
-- The laws of blocks that are made, read, overwritten and given back.
use off_drop.Base.{ℕ, ◌≤◌, ◌++◌, ◌≡◌, ◌≢◌, refl, arith, [], ◌∷◌}
use off_drop.Base.{length, drop, Option, none, some, le→ltb, ◌==◌, ne→==}
use off_drop.Base.{
  take_of_length-le, append-nil, nil_of_length, Option-cases, length-drop, inl, inr, Bool-cases,
}
use off_drop.Base.Result.{ok, fault}
use off_drop.Protocol.{Bytes}
use off_drop.Memory.{
  Pointer, AirdropBuffer, Memory, write, load, load_block, load_string, copy_to, overwrite,
}
use off_drop.Memory.{put_buffer, put_slot, free_block}
use mathlib.Core.Path.{fun_ext}

pub write_self : {A : Type 0} (cells : ℕ → Option A) (a : ℕ) (v : Option A) → write cells a v a ≡ v
unfolding write
write_self cells a v = ground arith

pub write_other :
    {A : Type 0} (cells : ℕ → Option A) (a b : ℕ) (v : Option A)
    → a ≢ b
    → write cells a v b ≡ cells b
unfolding write
write_other cells a b v ne = ground arith

pub write-write :
    {A : Type 0} (cells : ℕ → Option A) (a : ℕ) (v w : Option A)
    → write (write cells a v) a w ≡ write cells a w
unfolding write
write-write cells a v w = fun_ext λ b. ground arith

-- A block that is there is not where none is.
pub apart :
    {A : Type 0} (cells : ℕ → Option A) (a b : ℕ) (v : A)
    → cells a ≡ none
    → cells b ≡ some v
    → a ≢ b
apart cells a b v none_here there e = cc

-- What is read of blocks that are kept is read of them again.
pub load_kept :
    (m m' : Memory) (p : Pointer) (n : ℕ) (got : Bytes)
    → ((a : ℕ) (block : Bytes) → m.blocks a ≡ some block → m'.blocks a ≡ some block)
    → load p n m ≡ ok got
    → load p n m' ≡ ok got
unfolding load load_block
load_kept m m' none n got kept h = h
load_kept m m' (some a) n got kept h = elim (Bool-cases (n == 0)) [
  | inl nothing ↦ rw nothing (rw nothing at h)
  | inr wanted ↦ elim (Option-cases (m.blocks a)) [
    | inl missing ↦ absurd (stuck (rw (wanted, missing) at h))
    | inr (block, there) ↦ rw (wanted, kept a block there) (rw (wanted, there) at h)
  ]
]
  where
    stuck : ¬ (fault ≡ ok got)
    stuck e = cc

-- So is the text at the start of a block that is kept.
pub load_string_kept :
    (m m' : Memory) (a : ℕ)
    → m'.blocks a ≡ m.blocks a
    → load_string (some a) m' ≡ load_string (some a) m
unfolding load_string
load_string_kept m m' a same = rw (same, load_string) refl

-- A whole block is read.
pub load_whole :
    (m : Memory) (a : ℕ) (block : Bytes)
    → m.blocks a ≡ some block
    → load (some a) (length block) m ≡ ok block
unfolding load load_block
load_whole m a [] there = refl
load_whole m a (b ∷ bytes) there =
    let n = length (b ∷ bytes) in
    rw
      (
        ne→== n 0 (omega arith),
        there,
        le→ltb n n (omega arith),
        take_of_length-le n (b ∷ bytes) (omega arith),
      )
      refl

pub copy_to_room :
    (m : Memory) (a : ℕ) (bytes old : Bytes)
    → m.blocks a ≡ some old
    → length bytes ≤ length old
    → copy_to (some a) bytes m
      ≡ (ok tt, record m { blocks = write m.blocks a (some (bytes ++ drop (length bytes) old)) })
unfolding copy_to overwrite
copy_to_room m a bytes old there room = rw (there, le→ltb (length old) (length bytes) room) refl

pub copy_to_whole :
    (m : Memory) (a : ℕ) (bytes old : Bytes)
    → m.blocks a ≡ some old
    → length old ≡ length bytes
    → copy_to (some a) bytes m ≡ (ok tt, record m { blocks = write m.blocks a (some bytes) })
unfolding copy_to overwrite
copy_to_whole m a bytes old there size =
    let nothing =
      nil_of_length (drop (length bytes) old) (omega (arith, length-drop (length bytes) old)) in
    rw (there, le→ltb (length old) (length bytes) (omega arith), nothing, append-nil bytes) refl

pub put_buffer_lem :
    (m : Memory) (a : ℕ) (old buf : AirdropBuffer)
    → m.buffers a ≡ some old
    → put_buffer (some a) buf m ≡ (ok tt, record m { buffers = write m.buffers a (some buf) })
unfolding put_buffer
put_buffer_lem m a old buf there = rw (there, put_slot)

pub free_block_lem :
    (m : Memory) (a : ℕ) (block : Bytes)
    → free_block (some block) a m ≡ (ok tt, record m { blocks = write m.blocks a none })
unfolding free_block
free_block_lem m a block = refl
