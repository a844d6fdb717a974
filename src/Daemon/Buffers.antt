-- ===== src/Daemon/Buffers.antt =====
-- `bufToBytes` of cmd/daemon/bridge.go: the bytes of a buffer, which is freed behind the copy
-- unless it is empty.
use off_drop.Base.{ℕ, ◌%◌, ◌^◌, ◌≤◌, ◌<◌, ◌≡◌, refl, arith}
use off_drop.Base.{[], length, none, some, ne→==, lt→ltb}
use off_drop.Base.Result.{ok}
use off_drop.Protocol.{Bytes}
use off_drop.OpenSsl.{OpenSsl}
use off_drop.Memory.{AirdropBuffer, Memory, Malloc, write}
use off_drop.Memory.Writes.{load_whole}
use off_drop.CApi.Handing.{airdrop_free_buffer_lem}
use off_drop.Daemon.{go_bytes, buf_to_bytes, finally, take_out, read_slot}

abbrev pub full_buffer : ℕ → Bytes → AirdropBuffer
full_buffer p bytes = record { data_ptr = some p; len = length bytes }

read_slot_lem :
    (m : Memory) (a : ℕ) (buf : AirdropBuffer) → m.buffers a ≡ some buf → read_slot a m ≡ ok buf
unfolding read_slot
read_slot_lem m a buf slot = rw (slot, read_slot) refl

go_bytes_lem :
    (m : Memory) (p : ℕ) (bytes : Bytes)
    → m.blocks p ≡ some bytes
    → length bytes < 2 ^ 31
    → go_bytes (some p) (length bytes) m ≡ ok bytes
unfolding go_bytes
go_bytes_lem m p bytes there small =
    let whole : length bytes % 2 ^ 32 ≡ length bytes = omega arith in
    rw (whole, lt→ltb _ _ small) (load_whole m p bytes there)

module _ (lib : OpenSsl) (malloc : Malloc) (m : Memory) (w : lib.World) where
  buf_to_bytes_lem :
      (p : ℕ) (bytes : Bytes)
      → m.blocks p ≡ some bytes
      → 1 ≤ length bytes
      → length bytes < 2 ^ 31
      → buf_to_bytes lib malloc (full_buffer p bytes) (w, m)
        ≡ (ok bytes, (w, record m { blocks = write m.blocks p none }))
  unfolding buf_to_bytes finally
  buf_to_bytes_lem p bytes there filled small =
      rw
        (
          ne→== (length bytes) 0 (omega arith),
          go_bytes_lem m p bytes there small,
          airdrop_free_buffer_lem m p (length bytes) bytes there,
        )
        refl

  pub take_out_lem :
      (a p : ℕ) (bytes : Bytes)
      → m.buffers a ≡ some (full_buffer p bytes)
      → m.blocks p ≡ some bytes
      → 1 ≤ length bytes
      → length bytes < 2 ^ 31
      → take_out lib malloc a (w, m) ≡ (ok bytes, (w, record m { blocks = write m.blocks p none }))
  unfolding take_out
  take_out_lem a p bytes slot there filled small =
      rw (read_slot_lem m a (full_buffer p bytes) slot, buf_to_bytes_lem p bytes there filled small)
        refl

  pub take_out_empty :
      (a p : ℕ)
      → m.buffers a ≡ some (full_buffer p [])
      → take_out lib malloc a (w, m) ≡ (ok [], (w, m))
  unfolding take_out buf_to_bytes
  take_out_empty a p slot = rw (read_slot_lem m a (full_buffer p []) slot) refl
