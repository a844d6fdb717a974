-- ===== src/Chunking/Canvas.antt =====
-- What the output file of core/src/chunking.cpp shows while it is received: the blocks that have
-- come, and zeros in the place of the others.
use off_drop.Base.{ℕ, zero, suc, ◌+◌, ◌-◌, ◌*◌, ◌^◌, ◌≤◌, ◌<◌, ◌≡◌, refl, sym, ap, ◌∙◌, arith}
use off_drop.Base.{
  List, [], ◌∷◌, ◌++◌, length, take, drop, set, replicate, Bool, true, false, append-nil,
}
use off_drop.Base.{
  length-append, length-replicate, length-take, length-drop, drop-append, take-append-drop,
}
use off_drop.Protocol.{Bytes, chunk_size}
use off_drop.Files.{FileSystem, IsWritable, write_at, write_to-write_at}
use off_drop.Files.Write.{write_at-splice}
use off_drop.Base.{drop-nil, drop-drop, take_of_length-le, ne→==, lt→ltb}
use native.Mathlib.Decide.{ℕ_discrete}
use off_drop.Chunking.{preallocated}
use off_drop.Chunking.Blocks.{block, block_inside}

-- A block that has come, or zeros.
unfoldable pub shown : Bool → Bytes → Bytes
shown true bytes = bytes
shown false bytes = replicate (length bytes) 0

-- A file with a mark for each of its blocks.
unfoldable pub canvas : List Bool → Bytes → Bytes
canvas [] file = []
canvas (seen ∷ marks) file =
    shown seen (take chunk_size file) ++ canvas marks (drop chunk_size file)

length-shown : (seen : Bool) (bytes : Bytes) → length (shown seen bytes) ≡ length bytes
unfolding shown
length-shown true bytes = refl
length-shown false bytes = length-replicate (length bytes) 0

-- The marks are for all blocks of the file.
pub length-canvas :
    (marks : List Bool) (file : Bytes)
    → length file ≤ length marks * chunk_size
    → length (canvas marks file) ≡ length file
unfolding canvas
length-canvas [] file h = omega arith
length-canvas (seen ∷ marks) file h =
    let rest =
      length-canvas marks (drop chunk_size file) (omega (arith, length-drop chunk_size file)) in
    let whole = ap length (take-append-drop chunk_size file) in
    omega (
      arith,
      rest,
      whole,
      length-append (shown seen (take chunk_size file)) (canvas marks (drop chunk_size file)),
      length-append (take chunk_size file) (drop chunk_size file),
      length-shown seen (take chunk_size file),
    )

write_at-cons :
    (x : ℕ) (file : Bytes) (at : ℕ) (bytes : Bytes)
    → at + length bytes ≤ length file
    → write_at (x ∷ file) (suc at) bytes ≡ x ∷ write_at file at bytes
write_at-cons x file at bytes h =
    let past : suc at + length bytes ≡ suc (at + length bytes) = omega arith in
    write_at-splice (x ∷ file) (suc at) bytes (omega arith)
    ∙ ap (λ n. (take (suc at) (x ∷ file) ++ bytes) ++ drop n (x ∷ file)) past
    ∙ ap (λ (t : Bytes). x ∷ t) (sym (write_at-splice file at bytes h))

write_at_behind :
    (front file : Bytes) (at : ℕ) (bytes : Bytes)
    → at + length bytes ≤ length file
    → write_at (front ++ file) (length front + at) bytes ≡ front ++ write_at file at bytes
write_at_behind [] file at bytes h =
    let here : 0 + at ≡ at = omega arith in ap (λ n. write_at file n bytes) here
write_at_behind (x ∷ front) file at bytes h =
    let place : length (x ∷ front) + at ≡ suc (length front + at) = omega arith in
    ap (λ n. write_at (x ∷ (front ++ file)) n bytes) place
    ∙ write_at-cons x (front ++ file) (length front + at) bytes
        (omega (arith, length-append front file))
    ∙ ap (λ (t : Bytes). x ∷ t) (write_at_behind front file at bytes h)

write_at_front :
    (front file bytes : Bytes)
    → length bytes ≡ length front
    → write_at (front ++ file) 0 bytes ≡ bytes ++ file
write_at_front front file bytes h =
    let past : 0 + length bytes ≡ length front = omega (arith, h) in
    write_at-splice (front ++ file) 0 bytes (omega (arith, h, length-append front file))
    ∙ ap (λ n. bytes ++ drop n (front ++ file)) past
    ∙ ap (λ (t : Bytes). bytes ++ t) (drop-append front file)

block-zero : (file : Bytes) → block file 0 ≡ take chunk_size file
unfolding block
block-zero file =
    let nothing : 0 * chunk_size ≡ 0 = omega arith in
    ap (λ n. take chunk_size (drop n file)) nothing

-- Writing the next block behind the first one.
block-suc : (file : Bytes) (i : ℕ) → block file (suc i) ≡ block (drop chunk_size file) i
unfolding block
block-suc file i =
    let place : suc i * chunk_size ≡ chunk_size + i * chunk_size = omega arith in
    ap (take chunk_size)
      (ap (λ n. drop n file) place ∙ sym (drop-drop (i * chunk_size) chunk_size file))

-- The block `i` is written at its place: this is the canvas with one more mark.
pub write_at-canvas :
    (marks : List Bool) (i : ℕ) (file : Bytes)
    → length file ≤ length marks * chunk_size
    → i * chunk_size < length file
    → write_at (canvas marks file) (i * chunk_size) (block file i) ≡ canvas (set marks i true) file
unfolding canvas shown
write_at-canvas [] i file h start = absurd (omega arith)
write_at-canvas (seen ∷ marks) zero file h start =
    let nothing : 0 * chunk_size ≡ 0 = omega arith in
    ap (λ n. write_at (canvas (seen ∷ marks) file) n (block file 0)) nothing
    ∙ ap (write_at (canvas (seen ∷ marks) file) 0) (block-zero file)
    ∙ write_at_front (shown seen (take chunk_size file)) (canvas marks (drop chunk_size file))
        (take chunk_size file) (sym (length-shown seen (take chunk_size file)))
write_at-canvas (seen ∷ marks) (suc i) file h start =
    let first = shown seen (take chunk_size file) in
    let file' = drop chunk_size file in
    let rest = canvas marks file' in
    let less = length-drop chunk_size file in
    let first_length = length-shown seen (take chunk_size file) in
    let first_whole = length-take chunk_size file (omega (arith, start)) in
    let rest_length = length-canvas marks file' (omega (arith, less)) in
    let place : suc i * chunk_size ≡ length first + i * chunk_size =
      omega (arith, first_length, first_whole) in
    ap (λ n. write_at (first ++ rest) n (block file (suc i))) place
    ∙ ap (write_at (first ++ rest) (length first + i * chunk_size)) (block-suc file i)
    ∙ write_at_behind first rest (i * chunk_size) (block file' i)
        (omega (arith, rest_length, block_inside file' i (omega (arith, less))))
    ∙ ap (λ (t : Bytes). first ++ t)
        (write_at-canvas marks i file' (omega (arith, less)) (omega (arith, less)))

abbrev zeros : ℕ → Bytes
zeros n = replicate n 0

zeros_append : (n k : ℕ) → zeros n ++ zeros k ≡ zeros (n + k)
zeros_append zero k = let here : 0 + k ≡ k = omega arith in sym (ap zeros here)
zeros_append (suc n) k =
    let next : suc n + k ≡ suc (n + k) = omega arith in
    ap (λ (t : Bytes). 0 ∷ t) (zeros_append n k) ∙ sym (ap zeros next)

-- Before a chunk has come there are zeros only.
pub canvas-replicate :
    (n : ℕ) (file : Bytes)
    → length file ≤ n * chunk_size
    → canvas (replicate n false) file ≡ replicate (length file) 0
unfolding canvas shown
canvas-replicate zero file h = let empty : length file ≡ 0 = omega arith in sym (ap zeros empty)
canvas-replicate (suc n) file h =
    let rest =
      canvas-replicate n (drop chunk_size file) (omega (arith, length-drop chunk_size file)) in
    let first = length (take chunk_size file) in
    ap (λ (t : Bytes). zeros first ++ t) rest
    ∙ zeros_append first (length (drop chunk_size file))
    ∙ ap zeros (
        sym (length-append (take chunk_size file) (drop chunk_size file))
        ∙ ap length (take-append-drop chunk_size file))

-- So does the constructor leave the file.
pub preallocated-replicate :
    (fs : FileSystem) (path : Bytes) (n : ℕ)
    → IsWritable fs path
    → n < 2 ^ 45
    → preallocated fs path n ≡ replicate n 0
unfolding preallocated write_at
preallocated-replicate fs path n v h = elim (ℕ_discrete n 0) [
  | yes e ↦ rw e refl
  | no ne ↦
      let gap : n - 1 - 0 ≡ n - 1 = omega arith in
      let whole =
        take_of_length-le (n - 1) (zeros (n - 1))
          (omega (arith, length-replicate {A = ℕ} (n - 1) 0)) in
      let size : n - 1 + 1 ≡ n = omega arith in
      let reaches = write_to-write_at fs path [] (n - 1) (0 ∷ []) v in
      rw
        (
          ne→== n 0 ne,
          lt→ltb (n - 1) (2 ^ 63) (omega arith),
          reaches,
          gap,
          whole,
          drop-nil (n - 1 + 1),
        )
        (append-nil (zeros (n - 1) ++ 0 ∷ []) ∙ zeros_append (n - 1) 1 ∙ ap zeros size)
]

pub preallocated-canvas :
    (fs : FileSystem) (path : Bytes) (n : ℕ) (file : Bytes)
    → IsWritable fs path
    → length file < 2 ^ 45
    → length file ≤ n * chunk_size
    → preallocated fs path (length file) ≡ canvas (replicate n false) file
preallocated-canvas fs path n file v h wide =
    preallocated-replicate fs path (length file) v h ∙ sym (canvas-replicate n file wide)
