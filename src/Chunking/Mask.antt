-- ===== src/Chunking/Mask.antt =====
-- The mask of the chunks that have come, and their count.
use off_drop.Base.{ℕ, zero, suc, ◌+◌, ◌%◌, ◌^◌, ◌≤◌, ◌<◌, ◌≡◌, ◌≢◌, refl, ap, ◌∙◌, arith}
use off_drop.Base.{List, [], ◌∷◌, length, get_elem?, set, replicate, Bool, true, false}
use off_drop.Base.{some}
use off_drop.Files.Blocks.{get_elem?_of_lt, get_elem?-set, get_elem?-set_other, length-set}
use off_drop.Chunking.{FileReceiver, mark}

unfoldable pub count_true : List Bool → ℕ
count_true [] = 0
count_true (true ∷ mask) = suc (count_true mask)
count_true (false ∷ mask) = count_true mask

pub count_true-le : (mask : List Bool) → count_true mask ≤ length mask
unfolding count_true
count_true-le [] = omega arith
count_true-le (true ∷ mask) = omega (arith, count_true-le mask)
count_true-le (false ∷ mask) = omega (arith, count_true-le mask)

pub count_true-replicate : (n : ℕ) → count_true (replicate n false) ≡ 0
unfolding count_true
count_true-replicate zero = refl
count_true-replicate (suc n) = count_true-replicate n

count_true-set :
    (mask : List Bool) (i : ℕ)
    → get_elem? mask i ≡ some false
    → count_true (set mask i true) ≡ suc (count_true mask)
unfolding count_true
count_true-set [] i h = cc
count_true-set (true ∷ mask) zero h = cc
count_true-set (false ∷ mask) zero h = refl
count_true-set (true ∷ mask) (suc i) h = ap suc (count_true-set mask i h)
count_true-set (false ∷ mask) (suc i) h = count_true-set mask i h

-- The count reaches the length exactly when every element is true.
pub count_true-full :
    (mask : List Bool)
    → ((i : ℕ) → i < length mask → get_elem? mask i ≡ some true)
    → count_true mask ≡ length mask
unfolding count_true
count_true-full [] h = refl
count_true-full (true ∷ mask) h = ap suc (count_true-full mask (λ i lt. h (suc i) (omega arith)))
count_true-full (false ∷ mask) h = cc (h zero (omega arith))

pub full-count_true :
    (mask : List Bool) (i : ℕ)
    → count_true mask ≡ length mask
    → i < length mask
    → get_elem? mask i ≡ some true
unfolding count_true
full-count_true [] i e h = absurd (omega arith)
full-count_true (true ∷ mask) zero e h = refl
full-count_true (true ∷ mask) (suc i) e h = full-count_true mask i (omega arith) (omega arith)
full-count_true (false ∷ mask) i e h = absurd (omega (arith, count_true-le mask))

-- The parts of a receiver that no chunk changes.
pub record SameOffer (r r' : FileReceiver) : Type 0 where
  pub output_path : r'.output_path ≡ r.output_path
  pub expected_size : r'.expected_size ≡ r.expected_size
  pub total_chunks : r'.total_chunks ≡ r.total_chunks
  pub expected_sha256 : r'.expected_sha256 ≡ r.expected_sha256

-- The mask has an element for each chunk, and the count is the number of those that have come.
pub record IsCounted (r : FileReceiver) : Type 0 where
  pub wide : length r.received_mask ≡ r.total_chunks
  pub counted : r.received_count ≡ count_true r.received_mask
  pub small : r.total_chunks < 2 ^ 32

-- What marking the chunk `i` does to the receiver.
pub record Marked (i : ℕ) (r r' : FileReceiver) : Type 0 where
  pub same : SameOffer r r'
  pub valid : IsCounted r'
  pub here : get_elem? r'.received_mask i ≡ some true
  pub others : (j : ℕ) → i ≢ j → get_elem? r'.received_mask j ≡ get_elem? r.received_mask j

SameOffer-refl : (r : FileReceiver) → SameOffer r r
SameOffer-refl r = record {
  output_path = refl;
  expected_size = refl;
  total_chunks = refl;
  expected_sha256 = refl;
}

mark_new :
    (i : ℕ) (r : FileReceiver)
    → IsCounted r
    → i < length r.received_mask
    → get_elem? r.received_mask i ≡ some false
    → (r' : FileReceiver) × (mark i r ≡ some r') × Marked i r r'
unfolding mark
mark_new i r v h e =
    let mask = set r.received_mask i true in
    let more = count_true-set r.received_mask i e in
    let wide = length-set r.received_mask i true in
    let fits : (r.received_count + 1) % 2 ^ 32 ≡ count_true mask =
      omega (arith, more, wide, count_true-le mask, v.wide, v.counted, v.small) in
    (
      record r { received_mask = mask; received_count = (r.received_count + 1) % 2 ^ 32 },
      rw (e, mark) refl,
      record {
        same = record {
          output_path = refl;
          expected_size = refl;
          total_chunks = refl;
          expected_sha256 = refl;
        };
        valid = record { wide = wide ∙ v.wide; counted = fits; small = v.small };
        here = get_elem?-set r.received_mask i true h;
        others = λ j ne. get_elem?-set_other r.received_mask i j true ne;
      },
    )

-- `mark` of a chunk in range, for a receiver whose mask and count belong together, marks the chunk
-- and no other, keeps the count the number of marked chunks, and changes nothing else of the
-- receiver.
pub mark-Marked :
    (i : ℕ) (r : FileReceiver)
    → IsCounted r
    → i < r.total_chunks
    → (r' : FileReceiver) × (mark i r ≡ some r') × Marked i r r'
unfolding mark
mark-Marked i r v h =
    let inside : i < length r.received_mask = omega (arith, v.wide) in
    let (seen, e) = get_elem?_of_lt r.received_mask i inside in by_element inside seen e
  where
    by_element :
        i < length r.received_mask
        → (seen : Bool) → get_elem? r.received_mask i ≡ some seen
        → (r' : FileReceiver) × (mark i r ≡ some r') × Marked i r r'
    by_element inside false e = mark_new i r v inside e
    by_element inside true e = (
      r,
      rw (e, mark) refl,
      record { same = SameOffer-refl r; valid = v; here = e; others = λ j ne. refl },
    )
