-- ===== src/Protocol/Words.antt =====
-- What `PutU32`, `PutU64` and `GetU32`, `GetU64` of core/src/protocol.cpp do with one word, in plain
-- arithmetic.
use off_drop.Base.{ℕ, suc, ◌+◌, ◌*◌, ◌/◌, ◌%◌, ◌^◌, ◌<◌, bit_or, ◌≡◌, refl, ap, ◌∙◌, arith}
use off_drop.Base.{[], ◌∷◌, ◌++◌, length, get_elem?, append_assoc}
use native.Mathlib.Nat.{mod-eq_of_lt}
use off_drop.Base.Bits.{bit_and-mask, bit_or-shifted}
use off_drop.Base.Result.{ok}
use off_drop.Protocol.{
  Bytes, IsByte, IsU32, IsU64, low_byte, join_u32, put_u32, put_u64, read_at, get_u64_loop,
}
use off_drop.Protocol.{get_u32, get_u64}

-- The bytes of a word, the lowest first.
abbrev pub le32 : ℕ → Bytes
le32 v = v % 256 ∷ v / 2 ^ 8 % 256 ∷ v / 2 ^ 16 % 256 ∷ v / 2 ^ 24 % 256 ∷ []

abbrev pub le64 : ℕ → Bytes
le64 v =
    v % 256
    ∷ v / 2 ^ 8 % 256
    ∷ v / 2 ^ 16 % 256
    ∷ v / 2 ^ 24 % 256
    ∷ v / 2 ^ 32 % 256
    ∷ v / 2 ^ 40 % 256
    ∷ v / 2 ^ 48 % 256
    ∷ v / 2 ^ 56 % 256
    ∷ []

abbrev pub u32_of : ℕ → ℕ → ℕ → ℕ → ℕ
u32_of a b c d = a + b * 2 ^ 8 + c * 2 ^ 16 + d * 2 ^ 24

abbrev pub u64_of : ℕ → ℕ → ℕ → ℕ → ℕ → ℕ → ℕ → ℕ → ℕ
u64_of a b c d e f g h =
    a + b * 2 ^ 8 + c * 2 ^ 16 + d * 2 ^ 24 + e * 2 ^ 32 + f * 2 ^ 40 + g * 2 ^ 48 + h * 2 ^ 56

low_byte-mod : (v : ℕ) → low_byte v ≡ v % 256
low_byte-mod v = omega (arith, bit_and-mask v)

pub put_u32-le32 : (buf : Bytes) (v : ℕ) → put_u32 buf v ≡ buf ++ le32 v
unfolding put_u32
put_u32-le32 buf v = simp (low_byte-mod, append_assoc)

div_one : (v : ℕ) → v / 1 ≡ v
div_one v = omega arith

pub put_u64-le64 : (buf : Bytes) (v : ℕ) → put_u64 buf v ≡ buf ++ le64 v
unfolding put_u64
put_u64-le64 buf v = simp (low_byte-mod, append_assoc, div_one v)

get_elem?-append : (pre s : Bytes) (i : ℕ) → get_elem? (pre ++ s) (length pre + i) ≡ get_elem? s i
get_elem?-append [] s i = ap (get_elem? s) (omega arith)
get_elem?-append (x ∷ pre) s i =
    let shifted : suc (length pre) + i ≡ suc (length pre + i) = omega arith in
    rw shifted (get_elem?-append pre s i)

pub read_at-append : (pre s : Bytes) (i : ℕ) → read_at (pre ++ s) (length pre + i) ≡ read_at s i
unfolding read_at
read_at-append pre s i = rw (get_elem?-append pre s i, read_at)

read_at-append_first : (pre s : Bytes) → read_at (pre ++ s) (length pre) ≡ read_at s 0
read_at-append_first pre s =
    let plus_zero : length pre ≡ length pre + 0 = omega arith in
    ap (read_at (pre ++ s)) plus_zero ∙ read_at-append pre s 0

-- One more field of a word of `w` bits.
or_field :
    (w k x y : ℕ) → x < 2 ^ k → y * 2 ^ k < 2 ^ w → bit_or x (y * 2 ^ k % 2 ^ w) ≡ x + y * 2 ^ k
or_field w k x y h fits = ap (bit_or x) (mod-eq_of_lt fits) ∙ bit_or-shifted k x y h

join_u32-sum :
    (a b c d : ℕ) → IsByte a → IsByte b → IsByte c → IsByte d → join_u32 a b c d ≡ u32_of a b c d
join_u32-sum a b c d ha hb hc hd =
    let third = c * 2 ^ 16 % 2 ^ 32 in
    let fourth = d * 2 ^ 24 % 2 ^ 32 in
    let low = or_field 32 8 a b ha (omega arith) in
    let middle = or_field 32 16 (a + b * 2 ^ 8) c (omega arith) (omega arith) in
    let high = or_field 32 24 (a + b * 2 ^ 8 + c * 2 ^ 16) d (omega arith) (omega arith) in
    ap (λ (t : ℕ). bit_or (bit_or t third) fourth) low
    ∙ ap (λ (t : ℕ). bit_or t fourth) middle
    ∙ high

pub get_u32-append :
    (pre rest : Bytes) (a b c d : ℕ)
    → IsByte a
    → IsByte b
    → IsByte c
    → IsByte d
    → get_u32 (pre ++ a ∷ b ∷ c ∷ d ∷ rest) (length pre) ≡ ok (u32_of a b c d)
unfolding get_u32
get_u32-append pre rest a b c d ha hb hc hd =
    simp (read_at-append_first, read_at-append) (ap ok (join_u32-sum a b c d ha hb hc hd))

-- The rounds of the loop, from round `i` on, over the bytes that they read.
get_u64_loop-step :
    (rounds i : ℕ) (pre s : Bytes) (v b : ℕ)
    → read_at s i ≡ ok b
    → IsByte b
    → v < 2 ^ (8 * i)
    → b * 2 ^ (8 * i) < 2 ^ 64
    → get_u64_loop (suc rounds) i (pre ++ s) (length pre) v
      ≡ get_u64_loop rounds (i + 1) (pre ++ s) (length pre) (v + b * 2 ^ (8 * i))
unfolding get_u64
get_u64_loop-step rounds i pre s v b here hb hv fits =
    rw (read_at-append, here)
      (ap (get_u64_loop rounds (i + 1) (pre ++ s) (length pre)) (or_field 64 (8 * i) v b hv fits))

get_u64-append :
    (pre rest : Bytes) (a b c d e f g h : ℕ)
    → IsByte a × IsByte b × IsByte c × IsByte d × IsByte e × IsByte f × IsByte g × IsByte h
    → get_u64 (pre ++ a ∷ b ∷ c ∷ d ∷ e ∷ f ∷ g ∷ h ∷ rest) (length pre)
      ≡ ok (u64_of a b c d e f g h)
unfolding get_u64
get_u64-append pre rest a b c d e f g h p =
    let s = a ∷ b ∷ c ∷ d ∷ e ∷ f ∷ g ∷ h ∷ rest in
    get_u64_loop-step 7 0 pre s 0 a refl (omega arith) (omega arith) (omega arith)
    ∙ get_u64_loop-step 6 1 pre s _ b refl (omega arith) (omega arith) (omega arith)
    ∙ get_u64_loop-step 5 2 pre s _ c refl (omega arith) (omega arith) (omega arith)
    ∙ get_u64_loop-step 4 3 pre s _ d refl (omega arith) (omega arith) (omega arith)
    ∙ get_u64_loop-step 3 4 pre s _ e refl (omega arith) (omega arith) (omega arith)
    ∙ get_u64_loop-step 2 5 pre s _ f refl (omega arith) (omega arith) (omega arith)
    ∙ get_u64_loop-step 1 6 pre s _ g refl (omega arith) (omega arith) (omega arith)
    ∙ get_u64_loop-step 0 7 pre s _ h refl (omega arith) (omega arith) (omega arith)
    ∙ ap ok (omega arith)

-- Reading a word where it was written.
pub get_u32-le32 :
    (pre rest : Bytes) (v : ℕ) → IsU32 v → get_u32 (pre ++ (le32 v ++ rest)) (length pre) ≡ ok v
get_u32-le32 pre rest v h =
    let byte = λ (k : ℕ). v / 2 ^ k % 256 in
    get_u32-append pre rest (v % 256) (byte 8) (byte 16) (byte 24) (omega arith) (omega arith)
      (omega arith) (omega arith)
    ∙ ap ok (omega arith)

pub get_u64-le64 :
    (pre rest : Bytes) (v : ℕ) → IsU64 v → get_u64 (pre ++ (le64 v ++ rest)) (length pre) ≡ ok v
get_u64-le64 pre rest v h =
    let byte = λ (k : ℕ). v / 2 ^ k % 256 in
    get_u64-append pre rest (v % 256) (byte 8) (byte 16) (byte 24) (byte 32) (byte 40) (byte 48)
      (byte 56) (omega arith)
    ∙ ap ok (omega arith)

-- Every four bytes are those of a word, and every eight.
pub le32-u32_of :
    (a b c d : ℕ)
    → IsByte a × IsByte b × IsByte c × IsByte d
    → IsU32 (u32_of a b c d) × (a ∷ b ∷ c ∷ d ∷ [] ≡ le32 (u32_of a b c d))
le32-u32_of a b c d p = (omega arith, ground arith)

pub le64-u64_of :
    (a b c d e f g h : ℕ)
    → IsByte a × IsByte b × IsByte c × IsByte d × IsByte e × IsByte f × IsByte g × IsByte h
    → IsU64 (u64_of a b c d e f g h)
      × (a ∷ b ∷ c ∷ d ∷ e ∷ f ∷ g ∷ h ∷ [] ≡ le64 (u64_of a b c d e f g h))
le64-u64_of a b c d e f g h p = (omega arith, ground arith)
