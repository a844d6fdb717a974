-- ===== src/Chunking/Receiving.antt =====
-- The receiving side of core/src/chunking.cpp: what holds between two calls of `ReceiveChunk`, and
-- that a chunk of the file keeps it.
use off_drop.Base.{ℕ, ◌+◌, ◌*◌, ◌%◌, ◌^◌, ◌≤◌, ◌<◌, ◌≡◌, ◌≢◌, sym, ◌∙◌, subst}
use off_drop.Base.{length, get_elem?, true, false, some, leb, lt→leb}
use off_drop.Base.{arith}
use off_drop.Base.Result.{ok}
use off_drop.Protocol.{Bytes, chunk_size, ChunkPayload}
use off_drop.Files.{
  FileSystem, IsWritable, open_in_out, put_content, put_content-IsWritable, write_at, write_to,
  write_to-write_at, bytes_eq_refl,
}
use off_drop.Files.Blocks.{get_elem?_of_ge}
use native.Mathlib.Decide.{dec_lt, ℕ_discrete}
use off_drop.Files.Write.{
  length-write_at, get_elem?-write_at, get_elem?-write_at_before, get_elem?-write_at_behind,
}
use off_drop.OpenSsl.{OpenSsl}
use off_drop.Crypto.{decrypt_chunk}
use off_drop.Chunking.{
  FileReceiver, Machine, chunk_count, to_encrypted, receive_chunk, mark, mark_chunk, write_chunk,
}
use off_drop.Chunking.Blocks.{
  block, IsSendable, block_end, block_start, block_inside, length-block-le, get_elem?-block,
}
use off_drop.Chunking.Mask.{IsCounted, Marked, SameOffer, mark-Marked}

-- Two files agree on the bytes of the chunk `i`.
abbrev pub SameBlock : ℕ → Bytes → Bytes → Type 0
SameBlock i d file =
    (k : ℕ)
    → k < chunk_size
    → get_elem? d (i * chunk_size + k) ≡ get_elem? file (i * chunk_size + k)

-- `d` is what the output file holds, which takes each write whole.
pub record IsReceiving (file : Bytes) (fs : FileSystem) (r : FileReceiver) (d : Bytes)
    : Type 0 where
  pub total : r.total_chunks ≡ chunk_count (length file)
  pub valid : IsCounted r
  pub there : open_in_out fs r.output_path ≡ some d
  pub writes : IsWritable fs r.output_path
  pub size : length d ≡ length file
  pub blocks : (i : ℕ) → get_elem? r.received_mask i ≡ some true → SameBlock i d file

pub open_in_out-put_content :
    (fs : FileSystem) (path d d' : Bytes)
    → open_in_out fs path ≡ some d
    → open_in_out (put_content fs path d') path ≡ some d'
unfolding open_in_out put_content
open_in_out-put_content fs path d d' h = ground (arith, bytes_eq_refl path)

-- A write of the block `i` at its place.
abbrev write_of : Bytes → Bytes → ℕ → Bytes
write_of file d i = write_at d (i * chunk_size) (block file i)

module _ (file d : Bytes) (i : ℕ) (size : length d ≡ length file)
    (start : i * chunk_size ≤ length file) where
  abbrev patched : Bytes
  patched = write_of file d i

  fits : i * chunk_size + length (block file i) ≤ length d
  fits = omega (arith, block_inside file i start)

  length-patched : length patched ≡ length file
  length-patched = length-write_at d (i * chunk_size) (block file i) fits ∙ size

  patched_here : SameBlock i patched file
  patched_here k h = elim (dec_lt k (length (block file i))) [
    | yes inside ↦
        get_elem?-write_at d (i * chunk_size) (block file i) fits k inside
        ∙ get_elem?-block file i k h
    | no outside ↦
        let past = block_end file i k h (omega arith) in
        get_elem?_of_ge patched _ (omega (arith, length-patched))
        ∙ sym (get_elem?_of_ge file _ past)
  ]

  patched_others : (j : ℕ) → i ≢ j → SameBlock j d file → SameBlock j patched file
  patched_others j ne same k h = elim (dec_lt j i) [
    | yes before ↦
        get_elem?-write_at_before d (i * chunk_size) (block file i) fits _ (omega arith) ∙ same k h
    | no behind ↦
        get_elem?-write_at_behind d (i * chunk_size) (block file i) fits _
          (omega (arith, length-block-le file i))
        ∙ same k h
  ]

patched-IsReceiving :
    {file : Bytes} (fs : FileSystem) (r r' : FileReceiver) (d : Bytes) (i : ℕ)
    → (v : IsReceiving file fs r d) (start : i * chunk_size ≤ length file) → Marked i r r'
    → IsReceiving file (put_content fs r.output_path (write_of file d i)) r' (write_of file d i)
patched-IsReceiving {file} fs r r' d i v start done =
    let d' = write_of file d i in
    record {
      total = done.same.total_chunks ∙ v.total;
      valid = done.valid;
      there = rw done.same.output_path (open_in_out-put_content fs r.output_path d d' v.there);
      writes =
          rw done.same.output_path
            (put_content-IsWritable fs r.output_path d' r.output_path v.writes);
      size = length-patched file d i v.size start;
      blocks = λ j e. elim (ℕ_discrete i j) [
        | yes same ↦ subst (λ t. SameBlock t d' file) same (patched_here file d i v.size start)
        | no ne ↦
            patched_others file d i v.size start j ne (v.blocks j (sym (done.others j ne) ∙ e))
      ];
    }

-- The calls of `ReceiveChunk` in a row, for a chunk that passes.
module _ (lib : OpenSsl) (key : Bytes) (c : ChunkPayload) (m : Machine lib)
    (r r' : FileReceiver) where
  mark_chunk-some :
      (n : Machine lib)
      → mark c.chunk_index r ≡ some r'
      → mark_chunk lib c.chunk_index (n, r) ≡ (ok tt, (n, r'))
  unfolding mark_chunk
  mark_chunk-some n e = rw (e, mark_chunk)

  -- The steps of a chunk that passes each test.
  pub receive_chunk-steps :
      (w' : lib.World) (text old : Bytes)
      → leb r.total_chunks c.chunk_index ≡ false
      → decrypt_chunk lib key (to_encrypted c) m.ssl ≡ (ok text, w')
      → open_in_out m.disk r.output_path ≡ some old
      → mark c.chunk_index r ≡ some r'
      → let written =
          write_to m.disk r.output_path old (c.chunk_index * chunk_size % 2 ^ 64) text in
        receive_chunk lib key c (m, r)
        ≡ (ok tt, (record { ssl = w'; disk = put_content m.disk r.output_path written }, r'))
  unfolding receive_chunk write_chunk
  receive_chunk-steps w' text old in_range opened there marked =
      rw (in_range, opened, there) (mark_chunk-some _ marked)

-- A chunk of the file: in range, and opened by the receiver's key.
pub record IsGenuine (lib : OpenSsl) (key file : Bytes) (c : ChunkPayload) : Type 0 where
  pub in_range : c.chunk_index < chunk_count (length file)
  pub opens :
      (w : lib.World)
      → (w' : lib.World) × (decrypt_chunk lib key (to_encrypted c) w
          ≡ (ok (block file c.chunk_index), w'))

-- What a call of `ReceiveChunk` does to a transfer that is under way.
pub record Received (lib : OpenSsl) (file : Bytes) (i : ℕ) (m m' : Machine lib)
    (r r' : FileReceiver) (d' : Bytes) : Type 0 where
  pub receiving : IsReceiving file m'.disk r' d'
  pub offer : SameOffer r r'
  pub here : get_elem? r'.received_mask i ≡ some true
  pub kept : (j : ℕ) → i ≢ j → get_elem? r'.received_mask j ≡ get_elem? r.received_mask j

module _ (lib : OpenSsl) (key file : Bytes) (sendable : IsSendable file) where
  -- `receive_chunk` takes a chunk of a file below 32 TB, when the receiver is under way: it
  -- returns, the block of the chunk is in the output file, the blocks that were right stay right,
  -- the chunk is marked, and no other mark changes. The chunk is in range and the key opens it to
  -- its block.
  pub receive_chunk-Received :
      (c : ChunkPayload) (m : Machine lib) (r : FileReceiver) (d : Bytes)
      → IsGenuine lib key file c
      → IsReceiving file m.disk r d
      → (m' : Machine lib) × (r' : FileReceiver) × (d' : Bytes) × (receive_chunk lib key c (m, r)
          ≡ (ok tt, (m', r')))
        × Received lib file c.chunk_index m m' r r' d'
  receive_chunk-Received c m r d g v =
      let i = c.chunk_index in
      let (w', opened) = g.opens m.ssl in
      let in_range : i < r.total_chunks = omega (arith, g.in_range, v.total) in
      let (r', marked, done) = mark-Marked i r v.valid (omega (arith, g.in_range, v.total)) in
      let start = block_start (length file) i sendable g.in_range in
      let here : i * chunk_size ≤ length file = omega arith in
      let at : i * chunk_size % 2 ^ 64 ≡ i * chunk_size = omega arith in
      let refused = lt→leb r.total_chunks i (omega (arith, g.in_range, v.total)) in
      let steps =
        receive_chunk-steps lib key c m r r' w' (block file i) d refused opened v.there marked in
      (
        record { ssl = w'; disk = put_content m.disk r.output_path (write_of file d i) },
        r',
        write_of file d i,
        rw
            (
              ← write_to-write_at m.disk r.output_path d (i * chunk_size) (block file i) v.writes,
              ← at,
            )
            steps,
        record {
          receiving = patched-IsReceiving m.disk r r' d i v here done;
          offer = done.same;
          here = done.here;
          kept = done.others;
        },
      )
