-- ===== src/Chunking/AnyDisk.antt =====
-- A receiver of core/src/chunking.cpp on a disk that may take less of a write than it is given.
-- `ReceiveChunk` does not look at the stream behind its write.
use off_drop.Base.{◌%◌, ◌*◌, ◌^◌, ◌<◌, ◌≡◌, refl, sym, ap, ◌∙◌, arith}
use off_drop.Base.{List, [], ◌∷◌, length, All, Bool, true, false, replicate, set, some, lt→leb}
use off_drop.Base.Result.{ok}
use off_drop.Protocol.{Bytes, ChunkPayload, chunk_size}
use off_drop.Files.{FileSystem, open_in, open_in_out, put_content, write_to, bytes_eq}
use off_drop.OpenSsl.{OpenSsl}
use off_drop.OpenSsl.Documented.{Standard, Documented}
use off_drop.Chunking.{
  FileReceiver, Machine, chunk_count, preallocated, file_receiver, receive_chunk, is_complete,
  verify_integrity,
}
use off_drop.Chunking.Assembly.{receive_all}
use off_drop.Chunking.Blocks.{block, IsSendable}
use off_drop.Chunking.Mask.{IsCounted, SameOffer, mark-Marked}
use off_drop.Chunking.Opening.{
  new_receiver, new_disk, file_receiver-new_receiver, new_receiver-IsCounted, open_in_out-fresh,
}
use off_drop.Chunking.Receiving.{IsGenuine, receive_chunk-steps, open_in_out-put_content}
use off_drop.Chunking.Refine.{take_in, take_all, has_all, Marked-set, is_complete-has_all}
use off_drop.Chunking.Transfer.{open_in_of_in_out, verify_integrity-sha256}

-- The receiver has the marks, and its output file is there, whatever it holds.
record HasMarks (file : Bytes) (fs : FileSystem) (r : FileReceiver) (marks : List Bool)
    : Type 0 where
  total : r.total_chunks ≡ chunk_count (length file)
  valid : IsCounted r
  mask : r.received_mask ≡ marks
  holds : Bytes
  there : open_in_out fs r.output_path ≡ some holds

module _ (lib : OpenSsl) (key file : Bytes) where
  receive_chunk-HasMarks :
      (c : ChunkPayload) (m : Machine lib) (r : FileReceiver) (marks : List Bool)
      → IsGenuine lib key file c
      → HasMarks file m.disk r marks
      → (m' : Machine lib) × (r' : FileReceiver) × (receive_chunk lib key c (m, r)
          ≡ (ok tt, (m', r')))
        × HasMarks file m'.disk r' (take_in c marks)
        × SameOffer r r'
  receive_chunk-HasMarks c m r marks g v =
      let i = c.chunk_index in
      let (w', opened) = g.opens m.ssl in
      let in_range : i < r.total_chunks = omega (arith, g.in_range, v.total) in
      let (r', marked, done) = mark-Marked i r v.valid in_range in
      let written =
        write_to m.disk r.output_path v.holds (i * chunk_size % 2 ^ 64) (block file i) in
      (
        record { ssl = w'; disk = put_content m.disk r.output_path written },
        r',
        receive_chunk-steps lib key c m r r' w' (block file i) v.holds
            (lt→leb r.total_chunks i in_range) opened v.there marked,
        record {
          total = done.same.total_chunks ∙ v.total;
          valid = done.valid;
          mask =
              Marked-set i r r' v.valid in_range done
              ∙ ap (λ (mask : List Bool). set mask i true) v.mask;
          holds = written;
          there =
              rw done.same.output_path
                (open_in_out-put_content m.disk r.output_path v.holds written v.there);
        },
        done.same,
      )

  receive_all-HasMarks :
      (chunks : List ChunkPayload) (m : Machine lib) (r : FileReceiver) (marks : List Bool)
      → All (IsGenuine lib key file) chunks
      → HasMarks file m.disk r marks
      → (m' : Machine lib) × (r' : FileReceiver) × (receive_all lib key chunks (m, r)
          ≡ (ok tt, (m', r')))
        × HasMarks file m'.disk r' (take_all chunks marks)
        × (r'.output_path ≡ r.output_path)
        × (r'.expected_sha256 ≡ r.expected_sha256)
  unfolding take_all receive_all
  receive_all-HasMarks [] m r marks _ v = (m, r, refl, v, refl, refl)
  receive_all-HasMarks (c ∷ chunks) m r marks (g, gs) v =
      let (m1, r1, first, one, same) = receive_chunk-HasMarks c m r marks g v in
      let (m2, r2, rest, more, path, hash) =
        receive_all-HasMarks chunks m1 r1 (take_in c marks) gs one in
      (m2, r2, rw (first, rest) refl, more, path ∙ same.output_path, hash ∙ same.expected_sha256)

module _ (lib : OpenSsl) (std : Standard) (doc : Documented lib std) where
  -- Whatever part of each write reaches the output file, a new receiver and chunks of a file, in
  -- any order and as often as they come, run to their end without an exception, and the receiver is
  -- complete exactly when each index has come; only `verify_integrity` tells what became of the
  -- writes: it returns true exactly when the SHA-256 of what the output file holds is that of the
  -- file. Each chunk is in range and the key opens it to its block, the file is below 32 TB, the
  -- output path may be opened for reading and writing, and the library keeps to its manual.
  pub receive_all_short_writes :
      (key file path : Bytes) (m : Machine lib) (chunks : List ChunkPayload)
      → IsSendable file
      → m.disk.can_read path ≡ true
      → m.disk.can_write path ≡ true
      → All (IsGenuine lib key file) chunks
      → let marks = take_all chunks (replicate (chunk_count (length file)) false) in
        (r r' : FileReceiver) × (m0 m' m'' : Machine lib) × (d : Bytes) × (file_receiver lib path
            (length file)
            (chunk_count (length file))
            (std.sha256 file)
            m
          ≡ (ok r, m0))
        × (receive_all lib key chunks (m0, r) ≡ (ok tt, (m', r')))
        × (is_complete r' ≡ has_all marks)
        × (open_in m'.disk path ≡ some d)
        × (verify_integrity lib r' m' ≡ (ok (bytes_eq (std.sha256 d) (std.sha256 file)), m''))
  receive_all_short_writes key file path m chunks sendable readable writable genuine =
      let n = length file in
      let r = new_receiver path n (chunk_count n) (std.sha256 file) in
      let m0 : Machine lib = record m { disk = new_disk m.disk path n } in
      let first = preallocated (put_content m.disk path []) path n in
      let start : HasMarks file m0.disk r (replicate (chunk_count n) false) = record {
        total = refl;
        valid = new_receiver-IsCounted path (std.sha256 file) n sendable;
        mask = refl;
        holds = first;
        there = open_in_out-fresh m.disk path first readable writable;
      } in
      let (m', r', run, v, same, hash) =
        receive_all-HasMarks lib key file chunks m0 r (replicate (chunk_count n) false) genuine
          start in
      let opened = open_in_of_in_out m'.disk r'.output_path v.holds v.there in
      let (w', verified) = verify_integrity-sha256 lib std doc v.holds r' m' opened in
      (
        r,
        r',
        m0,
        m',
        record m' { ssl = w' },
        v.holds,
        file_receiver-new_receiver lib path (std.sha256 file) n (chunk_count n) m writable,
        run,
        is_complete-has_all r' _ v.valid v.mask,
        ap (open_in m'.disk) (sym same) ∙ opened,
        verified
            ∙ ap (λ (sha : Bytes). (ok (bytes_eq (std.sha256 v.holds) sha), record m' { ssl = w' }))
                hash,
      )
