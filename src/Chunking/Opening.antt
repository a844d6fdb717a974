-- ===== src/Chunking/Opening.antt =====
-- The constructor of `FileReceiver` in core/src/chunking.cpp: the state before the first chunk.
use off_drop.Base.{ℕ, zero, suc, ◌^◌, ◌<◌, ◌≡◌, ◌≢◌, inl, inr}
use off_drop.Base.{refl, sym, ◌∙◌, [], length, get_elem?, replicate}
use off_drop.Base.{Bool-cases}
use off_drop.Base.{true, false, some, length-replicate}
use off_drop.Base.Result.{ok}
use off_drop.Protocol.{Bytes}
use off_drop.Files.{FileSystem, open_in, open_in_out, open_trunc, put_content, bytes_eq}
use off_drop.Chunking.Canvas.{preallocated-replicate}
use off_drop.Files.{IsWritable, put_content-IsWritable}
use off_drop.Base.{ap}
use off_drop.Files.{bytes_eq_refl, bytes_eq→eq}
use off_drop.OpenSsl.{OpenSsl}
use off_drop.Chunking.{FileReceiver, Machine, chunk_count, preallocated, file_receiver}
use off_drop.Chunking.Blocks.{IsSendable, chunk_count-lt}
use off_drop.Chunking.Mask.{count_true-replicate, IsCounted}
use off_drop.Chunking.Receiving.{IsReceiving}

length-preallocated :
    (fs : FileSystem) (path : Bytes) (n : ℕ)
    → IsWritable fs path
    → n < 2 ^ 45
    → length (preallocated fs path n) ≡ n
length-preallocated fs path n v h =
    ap length (preallocated-replicate fs path n v h) ∙ length-replicate n 0

get_elem?-replicate : (n i : ℕ) → get_elem? (replicate n false) i ≢ some true
get_elem?-replicate zero i e = cc
get_elem?-replicate (suc n) zero e = cc
get_elem?-replicate (suc n) (suc i) e = get_elem?-replicate n i e

open_trunc-put_content :
    (fs : FileSystem) (path : Bytes)
    → fs.can_write path ≡ true
    → open_trunc fs path ≡ some (put_content fs path [])
unfolding open_trunc
open_trunc-put_content fs path h = rw h refl

pub open_in_out-fresh :
    (fs : FileSystem) (path d : Bytes)
    → fs.can_read path ≡ true
    → fs.can_write path ≡ true
    → open_in_out (put_content (put_content fs path []) path d) path ≡ some d
unfolding open_in_out put_content
open_in_out-fresh fs path d h k = rw (h, k, bytes_eq_refl path) refl

open_in-put_content_other :
    (fs : FileSystem) (path d other : Bytes)
    → path ≢ other
    → open_in (put_content fs path d) other ≡ open_in fs other
unfolding open_in put_content
open_in-put_content_other fs path d other ne = elim (Bool-cases (bytes_eq path other)) [
  | inl same ↦ absurd (ne (bytes_eq→eq path other same))
  | inr differ ↦ rw differ refl
]

-- What the constructor makes: the receiver and the files.
abbrev pub new_receiver : Bytes → ℕ → ℕ → Bytes → FileReceiver
new_receiver path size count sha = record {
  output_path = path;
  expected_size = size;
  total_chunks = count;
  received_count = 0;
  expected_sha256 = sha;
  received_mask = replicate count false;
}

abbrev pub new_disk : FileSystem → Bytes → ℕ → FileSystem
new_disk fs path size =
    let emptied = put_content fs path [] in
    put_content emptied path (preallocated emptied path size)

pub file_receiver-new_receiver :
    (lib : OpenSsl) (path sha : Bytes) (size count : ℕ) (m : Machine lib)
    → m.disk.can_write path ≡ true
    → file_receiver lib path size count sha m
      ≡ (ok (new_receiver path size count sha), record m { disk = new_disk m.disk path size })
unfolding file_receiver
file_receiver-new_receiver lib path sha size count m writable =
    rw (open_trunc-put_content m.disk path writable) refl

pub new_receiver-IsCounted :
    (path sha : Bytes) (size : ℕ)
    → size < 2 ^ 45
    → IsCounted (new_receiver path size (chunk_count size) sha)
new_receiver-IsCounted path sha size h = record {
  wide = length-replicate (chunk_count size) false;
  counted = sym (count_true-replicate (chunk_count size));
  small = chunk_count-lt size h;
}

-- A new receiver for a file below 32 TB, whose output path may be read and takes each write whole,
-- is under way: the output file has the size of the file, no chunk is marked, the path and the hash
-- are those given, and every other path opens as before.
pub file_receiver-IsReceiving :
    (lib : OpenSsl) (file path sha : Bytes) (m : Machine lib)
    → IsSendable file
    → m.disk.can_read path ≡ true
    → IsWritable m.disk path
    → (r : FileReceiver) × (m' : Machine lib) × (d : Bytes) × (file_receiver lib path
          (length file)
          (chunk_count (length file))
          sha
          m
        ≡ (ok r, m'))
      × IsReceiving file m'.disk r d
      × (r.output_path ≡ path)
      × (r.expected_sha256 ≡ sha)
      × ((i : ℕ) → get_elem? r.received_mask i ≢ some true)
      × ((other : Bytes) → path ≢ other → open_in m'.disk other ≡ open_in m.disk other)
file_receiver-IsReceiving lib file path sha m sendable readable writable =
    let n = length file in
    let count = chunk_count n in
    let emptied = put_content m.disk path [] in
    let d = preallocated emptied path n in
    let v = put_content-IsWritable m.disk path [] path writable in
    let never = get_elem?-replicate count in
    (
      new_receiver path n count sha,
      record m { disk = new_disk m.disk path n },
      d,
      file_receiver-new_receiver lib path sha n count m writable.opens,
      record {
        total = refl;
        valid = new_receiver-IsCounted path sha n sendable;
        there = open_in_out-fresh m.disk path d readable writable.opens;
        size = length-preallocated emptied path n v sendable;
        writes = put_content-IsWritable emptied path d path v;
        blocks = λ i e. absurd (never i e);
      },
      refl,
      refl,
      never,
      λ other ne.
          open_in-put_content_other emptied path d other ne
          ∙ open_in-put_content_other m.disk path [] other ne,
    )
