-- ===== src/Chunking/Blocks.antt =====
-- The blocks of a file, one for each chunk of core/src/chunking.cpp.
use off_drop.Base.{ℕ, zero, suc, ◌+◌, ◌-◌, ◌*◌, ◌/◌, ◌^◌, ◌≤◌, ◌<◌, ◌≡◌, ◌∙◌, arith}
use off_drop.Base.{[], ◌∷◌, length, get_elem?, take, drop, length-take-le, length-drop}
use off_drop.Protocol.{Bytes, chunk_size}
use off_drop.Files.Blocks.{get_elem?-take, get_elem?-drop}
use off_drop.Chunking.{chunk_count}

-- The bytes of the file that the chunk `i` carries.
unfoldable pub block : Bytes → ℕ → Bytes
block file i = take chunk_size (drop (i * chunk_size) file)

-- A file whose chunks a `uint32_t` counts.
abbrev pub IsSendable : Bytes → Type 0
IsSendable file = length file < 2 ^ 45

pub chunk_count-div : (n : ℕ) → n < 2 ^ 45 → chunk_count n ≡ (n + (chunk_size - 1)) / chunk_size
unfolding chunk_count
chunk_count-div n h = ground arith

-- A chunk's block begins inside of the file, and is whole unless it is the last one.
pub block_start : (n i : ℕ) → n < 2 ^ 45 → i < chunk_count n → i * chunk_size < n
block_start n i h lt = omega (arith, chunk_count-div n h)

pub blocks_cover : (n : ℕ) → n < 2 ^ 45 → n ≤ chunk_count n * chunk_size
blocks_cover n h = omega (arith, chunk_count-div n h)

pub chunk_count-lt : (n : ℕ) → n < 2 ^ 45 → chunk_count n < 2 ^ 32
chunk_count-lt n h = omega (arith, chunk_count-div n h)

pub length-block-le : (file : Bytes) (i : ℕ) → length (block file i) ≤ chunk_size
unfolding block
length-block-le file i = (length-take-le chunk_size (drop (i * chunk_size) file)).0

pub block_inside :
    (file : Bytes) (i : ℕ)
    → i * chunk_size ≤ length file
    → i * chunk_size + length (block file i) ≤ length file
unfolding block
block_inside file i h =
    let left = drop (i * chunk_size) file in
    omega (arith, (length-take-le chunk_size left).1, length-drop (i * chunk_size) file)

-- What a block lacks, the file lacks.
pub length-take-lt : (n : ℕ) (xs : Bytes) (k : ℕ) → k < n → length (take n xs) ≤ k → length xs ≤ k
length-take-lt zero xs k h short = absurd (omega arith)
length-take-lt (suc n) [] k h short = omega arith
length-take-lt (suc n) (x ∷ xs) zero h short = absurd (omega arith)
length-take-lt (suc n) (x ∷ xs) (suc k) h short =
    omega (arith, length-take-lt n xs k (omega arith) (omega arith))

pub block_end :
    (file : Bytes) (i k : ℕ)
    → k < chunk_size
    → length (block file i) ≤ k
    → length file ≤ i * chunk_size + k
unfolding block
block_end file i k h short = omega (
  arith,
  length-take-lt chunk_size (drop (i * chunk_size) file) k h short,
  length-drop (i * chunk_size) file,
)

pub get_elem?-block :
    (file : Bytes) (i k : ℕ)
    → k < chunk_size
    → get_elem? (block file i) k ≡ get_elem? file (i * chunk_size + k)
unfolding block
get_elem?-block file i k h =
    get_elem?-take chunk_size (drop (i * chunk_size) file) k h
    ∙ get_elem?-drop (i * chunk_size) file k
