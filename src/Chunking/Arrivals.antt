-- ===== src/Chunking/Arrivals.antt =====
-- What has arrived at a receiver of core/src/chunking.cpp, where the order of the chunks and their
-- repetitions are forgotten: a quotient of the runs of chunks.
use off_drop.Base.{ℕ, zero, suc, ◌≡◌, refl, sym, ap, ◌∙◌, arith}
use off_drop.Base.{List, [], ◌∷◌, length, get_elem?, replicate, All, Bool, true, false, ◌||◌}
use off_drop.Base.{Option, none, some, set, ◌==◌}
use off_drop.Base.{ne→==}
use off_drop.Base.Result.{Result, ok, err, fault}
use off_drop.Chunking.Opening.{new_receiver}
use off_drop.Protocol.{Bytes, ChunkPayload}
use off_drop.Files.{IsWritable, open_in_out}
use off_drop.Files.Blocks.{list_ext, length-set}
use off_drop.OpenSsl.{OpenSsl}
use off_drop.Chunking.{FileReceiver, Machine, chunk_count, file_receiver, is_complete}
use off_drop.Chunking.Assembly.{receive_all}
use off_drop.Chunking.Blocks.{IsSendable}
use off_drop.Chunking.Canvas.{canvas}
use off_drop.Chunking.Receiving.{IsGenuine}
use off_drop.Chunking.Refine.{take_in, take_all, has_all, receive_all-canvas}
use mathlib.Core.Quot
use mathlib.Core.Quot.{Quot, Quot-set}

-- A chunk with this index is among them.
unfoldable pub has_index : ℕ → List ChunkPayload → Bool
has_index i [] = false
has_index i (c ∷ chunks) = c.chunk_index == i || has_index i chunks

-- The same indices come, in whatever order and however often.
abbrev pub SameIndices : List ChunkPayload → List ChunkPayload → Type 0
SameIndices xs ys = (i : ℕ) → has_index i xs ≡ has_index i ys

abbrev pub Arrivals : Type 0
Arrivals = Quot SameIndices

length-take_all :
    (chunks : List ChunkPayload) (marks : List Bool) → length (take_all chunks marks) ≡ length marks
unfolding take_all
length-take_all [] marks = refl
length-take_all (c ∷ chunks) marks =
    length-take_all chunks (take_in c marks) ∙ length-set marks c.chunk_index true

-- A place is marked if it was, or if its index came.
abbrev marked_or : Bool → Option Bool → Option Bool
marked_or come none = none
marked_or come (some mark) = some (mark || come)

marked_or-false : (o : Option Bool) → o ≡ marked_or false o
marked_or-false none = refl
marked_or-false (some true) = refl
marked_or-false (some false) = refl

get_elem?-take_in :
    (marks : List Bool) (j i : ℕ) (come : Bool)
    → marked_or come (get_elem? (set marks j true) i)
      ≡ marked_or (j == i || come) (get_elem? marks i)
get_elem?-take_in [] j i come = refl
get_elem?-take_in (true ∷ marks) zero zero come = refl
get_elem?-take_in (false ∷ marks) zero zero come = refl
get_elem?-take_in (mark ∷ marks) zero (suc i) come =
    ap (λ b. marked_or (b || come) (get_elem? marks i)) (sym (ne→== 0 (suc i) (omega arith)))
get_elem?-take_in (mark ∷ marks) (suc j) zero come =
    ap (λ b. marked_or (b || come) (some mark)) (sym (ne→== (suc j) 0 (omega arith)))
get_elem?-take_in (mark ∷ marks) (suc j) (suc i) come =
    get_elem?-take_in marks j i come
    ∙ ap (λ b. marked_or (b || come) (get_elem? marks i)) (ground arith)

get_elem?-take_all :
    (chunks : List ChunkPayload) (marks : List Bool) (i : ℕ)
    → get_elem? (take_all chunks marks) i ≡ marked_or (has_index i chunks) (get_elem? marks i)
unfolding take_all has_index
get_elem?-take_all [] marks i = marked_or-false (get_elem? marks i)
get_elem?-take_all (c ∷ chunks) marks i =
    get_elem?-take_all chunks (take_in c marks) i
    ∙ get_elem?-take_in marks c.chunk_index i (has_index i chunks)

pub take_all_same :
    (xs ys : List ChunkPayload) (marks : List Bool)
    → SameIndices xs ys
    → take_all xs marks ≡ take_all ys marks
take_all_same xs ys marks same =
    list_ext (take_all xs marks) (take_all ys marks)
      (length-take_all xs marks ∙ sym (length-take_all ys marks))
      λ i _.
        get_elem?-take_all xs marks i
        ∙ ap (λ come. marked_or come (get_elem? marks i)) (same i)
        ∙ sym (get_elem?-take_all ys marks i)

-- What has arrived says which marks are set, and with them what the output file holds and whether
-- the receiver is complete.
unfoldable pub marks_of : Bytes → Arrivals → List Bool
marks_of file =
    let none_yet = replicate (chunk_count (length file)) false in
    Quot.lift (hlevel) (λ chunks. take_all chunks none_yet)
      (λ xs ys same. take_all_same xs ys none_yet same)

module _ (lib : OpenSsl) (key file : Bytes) (sendable : IsSendable file) where
  -- The state behind a constructor that returns.
  abbrev after : Machine lib → Result FileReceiver × Machine lib → Machine lib × FileReceiver
  after m (ok r, n) = (n, r)
  after m (err e, n) = (n, new_receiver [] 0 0 [])
  after m (fault, n) = (n, new_receiver [] 0 0 [])

  -- What a new receiver makes of chunks of a file is a function of what has arrived, in which their
  -- order and their repetitions are forgotten: the calls return, the output file is the blocks of
  -- the indices that came, with zeros in the place of the others, and the receiver is complete
  -- exactly when all have come. So two runs in which the same indices come end with the same file.
  -- Each chunk is in range and the key opens it to its block, the file is below 32 TB, and the
  -- output path may be read and takes each write whole.
  pub receive_all-Arrivals :
      (path sha : Bytes) (m : Machine lib) (xs ys : List ChunkPayload)
      → m.disk.can_read path ≡ true
      → IsWritable m.disk path
      → All (IsGenuine lib key file) xs
      → All (IsGenuine lib key file) ys
      → SameIndices xs ys
      → let marks = marks_of file (Quot.mk xs) in
        (r rx ry : FileReceiver) × (m0 mx my : Machine lib) × (file_receiver lib path
            (length file)
            (chunk_count (length file))
            sha
            m
          ≡ (ok r, m0))
        × (receive_all lib key xs (m0, r) ≡ (ok tt, (mx, rx)))
        × (receive_all lib key ys (m0, r) ≡ (ok tt, (my, ry)))
        × (open_in_out mx.disk path ≡ some (canvas marks file))
        × (open_in_out my.disk path ≡ some (canvas marks file))
        × (is_complete rx ≡ has_all marks)
        × (is_complete ry ≡ has_all marks)
  unfolding marks_of
  receive_all-Arrivals path sha m xs ys readable writable genuine_x genuine_y same =
      let (r, rx, m0, mx, made, run_x, file_x, complete_x) =
        receive_all-canvas lib key file sendable path sha m xs readable writable genuine_x in
      let (q, ry, n0, my, made', run_y, file_y, complete_y) =
        receive_all-canvas lib key file sendable path sha m ys readable writable genuine_y in
      let forgotten : marks_of file (Quot.mk ys) ≡ marks_of file (Quot.mk xs) =
        ap (marks_of file) (sym (Quot.sound same)) in
      let start : (n0, q) ≡ (m0, r) = ap (after m) (sym made' ∙ made) in
      (
        r,
        rx,
        ry,
        m0,
        mx,
        my,
        made,
        run_x,
        ap (receive_all lib key ys) (sym start) ∙ run_y,
        file_x,
        file_y ∙ ap (λ (marks : List Bool). some (canvas marks file)) forgotten,
        complete_x,
        complete_y ∙ ap has_all forgotten,
      )
