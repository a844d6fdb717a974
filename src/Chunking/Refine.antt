-- ===== src/Chunking/Refine.antt =====
-- The class FileReceiver of core/src/chunking.cpp against an abstract receiver, which has nothing
-- but a mark for each chunk: the order in which chunks come, and how often, is forgotten.
use off_drop.Base.{ℕ, suc, ◌*◌, ◌%◌, ◌^◌, ◌≤◌, ◌<◌, ◌≡◌, refl, sym, ap, ap₂, ◌∙◌, subst, arith}
use off_drop.Base.{
  List, [], ◌∷◌, ◌++◌, length, take, drop, set, replicate, get_elem?, All, Bool, true, false, some,
}
use off_drop.Base.{length-drop, take-append-drop, lt→leb, ◌==◌, ne→==}
use off_drop.Base.Result.{ok}
use off_drop.Protocol.{Bytes, chunk_size, ChunkPayload}
use off_drop.Files.{
  FileSystem, IsWritable, open_in_out, put_content, put_content-IsWritable, write_at,
  write_to-write_at,
}
use off_drop.Files.Blocks.{list_ext, length-set, get_elem?-set, get_elem?-set_other}
use off_drop.OpenSsl.{OpenSsl}
use off_drop.Chunking.{
  FileReceiver, Machine, chunk_count, preallocated, file_receiver, receive_chunk, is_complete,
}
use off_drop.Chunking.Assembly.{receive_all}
use off_drop.Chunking.Blocks.{block, IsSendable, block_start, blocks_cover}
use off_drop.Chunking.Canvas.{canvas, shown, write_at-canvas, preallocated-canvas}
use off_drop.Chunking.Mask.{IsCounted, Marked, mark-Marked, count_true, count_true-le}
use off_drop.Chunking.Opening.{
  new_receiver, new_disk, file_receiver-new_receiver, new_receiver-IsCounted, open_in_out-fresh,
}
use off_drop.Chunking.Receiving.{IsGenuine, receive_chunk-steps, open_in_out-put_content}
use native.Mathlib.Decide.{ℕ_discrete}

-- The abstract receiver takes a chunk, takes chunks in a row, and has them all.
abbrev pub take_in : ChunkPayload → List Bool → List Bool
take_in c marks = set marks c.chunk_index true

unfoldable pub take_all : List ChunkPayload → List Bool → List Bool
take_all [] marks = marks
take_all (c ∷ chunks) marks = take_all chunks (take_in c marks)

unfoldable pub has_all : List Bool → Bool
has_all [] = true
has_all (true ∷ marks) = has_all marks
has_all (false ∷ marks) = false

-- The receiver and its output file stand for the marks.
pub record Shows (file : Bytes) (fs : FileSystem) (r : FileReceiver) (marks : List Bool)
    : Type 0 where
  pub total : r.total_chunks ≡ chunk_count (length file)
  pub valid : IsCounted r
  pub mask : r.received_mask ≡ marks
  pub writes : IsWritable fs r.output_path
  pub there : open_in_out fs r.output_path ≡ some (canvas marks file)

-- The abstract receiver that has all chunks has the file.
pub canvas-has_all :
    (marks : List Bool) (file : Bytes)
    → length file ≤ length marks * chunk_size
    → has_all marks ≡ true
    → canvas marks file ≡ file
unfolding has_all canvas shown
canvas-has_all [] [] h all = refl
canvas-has_all [] (b ∷ file) h all = absurd (omega arith)
canvas-has_all (true ∷ marks) file h all =
    ap (λ (t : Bytes). take chunk_size file ++ t)
      (canvas-has_all marks (drop chunk_size file) (omega (arith, length-drop chunk_size file)) all)
    ∙ take-append-drop chunk_size file
canvas-has_all (false ∷ marks) file h all = cc

-- The new mask, as a list.
pub Marked-set :
    (i : ℕ) (r r' : FileReceiver)
    → IsCounted r
    → i < r.total_chunks
    → Marked i r r'
    → r'.received_mask ≡ set r.received_mask i true
Marked-set i r r' v h done =
    list_ext r'.received_mask (set r.received_mask i true)
      (done.valid.wide
        ∙ done.same.total_chunks
        ∙ sym v.wide
        ∙ sym (length-set r.received_mask i true))
      each
  where
    each :
        (j : ℕ)
        → j < length r'.received_mask
        → get_elem? r'.received_mask j ≡ get_elem? (set r.received_mask i true) j
    each j _ = elim (ℕ_discrete i j) [
      | yes same ↦
          subst (λ k. get_elem? r'.received_mask k ≡ get_elem? (set r.received_mask i true) k) same
            (done.here ∙ sym (get_elem?-set r.received_mask i true (omega (arith, v.wide))))
      | no ne ↦ done.others j ne ∙ sym (get_elem?-set_other r.received_mask i j true ne)
    ]

has_all-count_true : (marks : List Bool) → has_all marks ≡ (count_true marks == length marks)
unfolding has_all count_true
has_all-count_true [] = refl
has_all-count_true (true ∷ marks) = has_all-count_true marks ∙ ground arith
has_all-count_true (false ∷ marks) =
    sym (ne→== (count_true marks) (suc (length marks)) (omega (arith, count_true-le marks)))

pub is_complete-has_all :
    (r : FileReceiver) (marks : List Bool)
    → IsCounted r
    → r.received_mask ≡ marks
    → is_complete r ≡ has_all marks
unfolding is_complete
is_complete-has_all r marks valid mask =
    ap₂ (λ (m n : ℕ). m == n) (valid.counted ∙ ap count_true mask) (sym valid.wide ∙ ap length mask)
    ∙ sym (has_all-count_true marks)

module _ (lib : OpenSsl) (key file : Bytes) (sendable : IsSendable file) where
  -- A chunk is taken in by the receiver as by the abstract one.
  receive_chunk-Shows :
      (c : ChunkPayload) (m : Machine lib) (r : FileReceiver) (marks : List Bool)
      → IsGenuine lib key file c
      → Shows file m.disk r marks
      → (m' : Machine lib) × (r' : FileReceiver) × (receive_chunk lib key c (m, r)
          ≡ (ok tt, (m', r')))
        × Shows file m'.disk r' (take_in c marks)
        × (r'.output_path ≡ r.output_path)
  receive_chunk-Shows c m r marks g v =
      let i = c.chunk_index in
      let (w', opened) = g.opens m.ssl in
      let in_range : i < r.total_chunks = omega (arith, g.in_range, v.total) in
      let (r', marked, done) = mark-Marked i r v.valid in_range in
      let start = block_start (length file) i sendable g.in_range in
      let at : i * chunk_size % 2 ^ 64 ≡ i * chunk_size = omega arith in
      let old = canvas marks file in
      let steps =
        receive_chunk-steps lib key c m r r' w' (block file i) old
          (lt→leb r.total_chunks i in_range) opened v.there marked in
      let wide = blocks_cover (length file) sendable in
      let enough : length file ≤ length marks * chunk_size =
        omega (arith, wide, ap length v.mask, v.valid.wide, v.total) in
      let drawn = write_at-canvas marks i file enough start in
      let written = write_at old (i * chunk_size) (block file i) in
      (
        record { ssl = w'; disk = put_content m.disk r.output_path written },
        r',
        rw
            (
              ← write_to-write_at m.disk r.output_path old (i * chunk_size) (block file i) v.writes,
              ← at,
            )
            steps,
        record {
          total = done.same.total_chunks ∙ v.total;
          valid = done.valid;
          mask =
              Marked-set i r r' v.valid in_range done
              ∙ ap (λ (mask : List Bool). set mask i true) v.mask;
          writes =
              rw done.same.output_path
                (put_content-IsWritable m.disk r.output_path written r.output_path v.writes);
          there =
              rw done.same.output_path
                (open_in_out-put_content m.disk r.output_path old written v.there)
              ∙ ap some drawn;
        },
        done.same.output_path,
      )

  receive_all-Shows :
      (chunks : List ChunkPayload) (m : Machine lib) (r : FileReceiver) (marks : List Bool)
      → All (IsGenuine lib key file) chunks
      → Shows file m.disk r marks
      → (m' : Machine lib) × (r' : FileReceiver) × (receive_all lib key chunks (m, r)
          ≡ (ok tt, (m', r')))
        × Shows file m'.disk r' (take_all chunks marks)
        × (r'.output_path ≡ r.output_path)
  unfolding take_all receive_all
  receive_all-Shows [] m r marks _ v = (m, r, refl, v, refl)
  receive_all-Shows (c ∷ chunks) m r marks (g, gs) v =
      let (m1, r1, first, one, same) = receive_chunk-Shows c m r marks g v in
      let (m2, r2, rest, more, same') = receive_all-Shows chunks m1 r1 (take_in c marks) gs one in
      (m2, r2, rw (first, rest) refl, more, same' ∙ same)

  -- A new receiver, and the chunks of a file in any order and as often as they come, do what the
  -- abstract receiver does, which has a mark for each chunk and sets one for each that comes: the
  -- calls return, the output file is exactly the blocks of the file that are marked, with zeros in
  -- the place of the others, and the receiver is complete exactly when every mark is set. Each
  -- chunk is in range and the key opens it to its block, the file is below 32 TB, and the output
  -- path may be read and takes each write whole.
  pub receive_all-canvas :
      (path sha : Bytes) (m : Machine lib) (chunks : List ChunkPayload)
      → m.disk.can_read path ≡ true
      → IsWritable m.disk path
      → All (IsGenuine lib key file) chunks
      → let marks = take_all chunks (replicate (chunk_count (length file)) false) in
        (r r' : FileReceiver) × (m0 m' : Machine lib) × (file_receiver lib path
            (length file)
            (chunk_count (length file))
            sha
            m
          ≡ (ok r, m0))
        × (receive_all lib key chunks (m0, r) ≡ (ok tt, (m', r')))
        × (open_in_out m'.disk path ≡ some (canvas marks file))
        × (is_complete r' ≡ has_all marks)
  receive_all-canvas path sha m chunks readable writable genuine =
      let n = length file in
      let r = new_receiver path n (chunk_count n) sha in
      let m0 : Machine lib = record m { disk = new_disk m.disk path n } in
      let made = file_receiver-new_receiver lib path sha n (chunk_count n) m writable.opens in
      let emptied = put_content m.disk path [] in
      let fresh = put_content-IsWritable m.disk path [] path writable in
      let start : Shows file m0.disk r (replicate (chunk_count n) false) = record {
        total = refl;
        valid = new_receiver-IsCounted path sha n sendable;
        mask = refl;
        writes = put_content-IsWritable emptied path (preallocated emptied path n) path fresh;
        there =
            open_in_out-fresh m.disk path (preallocated emptied path n) readable writable.opens
            ∙ ap some (
                preallocated-canvas emptied path (chunk_count n) file fresh sendable
                  (blocks_cover n sendable));
      } in
      let (m', r', run, v, same) =
        receive_all-Shows chunks m0 r (replicate (chunk_count n) false) genuine start in
      (
        r,
        r',
        m0,
        m',
        made,
        run,
        ap (open_in_out m'.disk) (sym same) ∙ v.there,
        is_complete-has_all r' _ v.valid v.mask,
      )
