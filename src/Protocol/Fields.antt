-- ===== src/Protocol/Fields.antt =====
-- The fields of a payload in core/src/protocol.cpp as formats: `uint32_t`, `uint64_t`, and blocks
-- with a length in front.
use off_drop.Base.{ℕ, ◌+◌, ◌^◌, ◌≤◌, ◌<◌, ◌≡◌, refl, sym, ap, ◌∙◌, subst, arith}
use off_drop.Base.{◌∷◌, ◌++◌, length, length-append, take, drop, take-append, drop-append}
use off_drop.Base.{
  All, All-append, All-append_right, ◌⊎◌, inl, inr, true, false, ltb, lt→ltb, le→ltb, Bool-cases,
  ltb→lt, ltb→le,
}
use off_drop.Base.{append_assoc, length-take, take-append-drop, All-take}
use off_drop.Base.Result.{Error, Result, ok, err, ◌>>=◌, ◌>>◌, throw_if, >>=_assoc}
use off_drop.Base.Result.{truncated_length_prefix, truncated_payload}
use off_drop.Protocol.{Bytes, IsByte, IsU32, IsU64, size_add, get_u32, get_u64, slice, read_bytes}
use off_drop.Protocol.Words.{le32, le64, u32_of, u64_of, get_u32-le32, get_u64-le64}
use off_drop.Protocol.Words.{le32-u32_of, le64-u64_of}
use off_drop.Protocol.Format.{Format, IsBuffer}

-- Where a field of `t` bytes lies in the buffer, its test passes and the offset moves behind it.
room :
    (buf pre t rest : Bytes)
    → IsBuffer buf
    → buf ≡ pre ++ (t ++ rest)
    → (ltb (length buf) (size_add (length pre) (length t)) ≡ false)
      × (size_add (length pre) (length t) ≡ length (pre ++ t))
room buf pre t rest small e =
    let whole = ap length e ∙ length-append pre (t ++ rest) in
    let inner = length-append t rest in
    (le→ltb _ _ (omega (arith, whole, inner)), omega (arith, whole, inner, length-append pre t))

no_room :
    (buf pre s : Bytes) (n : ℕ)
    → IsBuffer buf
    → buf ≡ pre ++ s
    → length s < n
    → n < 2 ^ 33
    → ltb (length buf) (size_add (length pre) n) ≡ true
no_room buf pre s n small e h top =
    let whole = ap length e ∙ length-append pre s in lt→ltb _ _ (omega (arith, whole))

-- A word of `n` bytes behind the test that the buffer holds it.
module _ (e : Error) (n : ℕ) (IsWord : ℕ → Type 0) (enc : ℕ → Bytes)
    (get : Bytes → ℕ → Result ℕ) where
  pub read_word : Bytes → ℕ → Result (ℕ × ℕ)
  read_word buf offset = do
    throw_if (ltb (length buf) (size_add offset n)) e
    v ← get buf offset
    ok (v, size_add offset n)

  pub read_word-enc :
      ((v : ℕ) → length (enc v) ≡ n)
      → ((pre rest : Bytes) (v : ℕ) → IsWord v → get (pre ++ (enc v ++ rest)) (length pre) ≡ ok v)
      → (buf pre rest : Bytes) (v : ℕ) → IsWord v
      → IsBuffer buf
      → buf ≡ pre ++ (enc v ++ rest)
      → read_word buf (length pre) ≡ ok (v, length (pre ++ enc v))
  unfolding read_word
  read_word-enc wide got buf pre rest v h small split =
      let (passes, moved) = room buf pre (enc v) rest small split in
      let word = rw (← split) at (got pre rest v h) in rw (← wide v, passes, word, moved) refl

  pub read_word_cases :
      n < 2 ^ 33
      → ((s : Bytes)
          → All IsByte s
          → (length s < n) ⊎ ((v : ℕ) × (rest : Bytes) × IsWord v × (s ≡ enc v ++ rest)))
      → (buf pre s : Bytes) → All IsByte s
      → IsBuffer buf
      → buf ≡ pre ++ s
      → ((v : ℕ) × (rest : Bytes) × IsWord v × (s ≡ enc v ++ rest))
        ⊎ ((x : Error) × (read_word buf (length pre) ≡ err x))
  unfolding read_word
  read_word_cases top cut buf pre s bytes small split = elim (cut s bytes) [
    | inl short ↦ inr (e, rw (no_room buf pre s n small split short top))
    | inr found ↦ inl found
  ]

pub cut-IsU32 :
    (s : Bytes)
    → All IsByte s
    → (length s < 4) ⊎ ((v : ℕ) × (rest : Bytes) × IsU32 v × (s ≡ le32 v ++ rest))
cut-IsU32 (a ∷ b ∷ c ∷ d ∷ rest) (ha, (hb, (hc, (hd, _)))) =
    let (word, same) = le32-u32_of a b c d (ha, hb, hc, hd) in
    inr (u32_of a b c d, rest, word, ap (λ (t : Bytes). t ++ rest) same)
cut-IsU32 _ h = inl (omega arith)

pub cut-IsU64 :
    (s : Bytes)
    → All IsByte s
    → (length s < 8) ⊎ ((v : ℕ) × (rest : Bytes) × IsU64 v × (s ≡ le64 v ++ rest))
cut-IsU64 (a ∷ b ∷ c ∷ d ∷ e ∷ f ∷ g ∷ h ∷ rest) (ha, (hb, (hc, (hd, (he, (hf, (hg, (hh, _)))))))) =
    let (word, same) = le64-u64_of a b c d e f g h (ha, hb, hc, hd, he, hf, hg, hh) in
    inr (u64_of a b c d e f g h, rest, word, ap (λ (t : Bytes). t ++ rest) same)
cut-IsU64 _ h = inl (omega arith)

pub le32-IsByte : (v : ℕ) → All IsByte (le32 v)
le32-IsByte v = omega arith

pub le64-IsByte : (v : ℕ) → All IsByte (le64 v)
le64-IsByte v = omega arith

unfoldable pub u32_format : Error → Format ℕ
unfolding read_word
u32_format e = record {
  IsFit = IsU32;
  encode = le32;
  read = read_word e 4 IsU32 le32 get_u32;
  encode-IsByte = λ v h. le32-IsByte v;
  read-encode = read_word-enc e 4 IsU32 le32 get_u32 (λ v. refl) get_u32-le32;
  read_cases = read_word_cases e 4 IsU32 le32 get_u32 (omega arith) cut-IsU32;
}

unfoldable pub u64_format : Error → Format ℕ
unfolding read_word
u64_format e = record {
  IsFit = IsU64;
  encode = le64;
  read = read_word e 8 IsU64 le64 get_u64;
  encode-IsByte = λ v h. le64-IsByte v;
  read-encode = read_word-enc e 8 IsU64 le64 get_u64 (λ v. refl) get_u64-le64;
  read_cases = read_word_cases e 8 IsU64 le64 get_u64 (omega arith) cut-IsU64;
}

-- `ReadBytes` is the length, the test of the room behind it, and the copy.
read_bytes-parts :
    (buf : Bytes) (offset : ℕ)
    → read_bytes buf offset ≡ (
        read_word truncated_length_prefix 4 IsU32 le32 get_u32 buf offset >>= λ (len, offset').
        throw_if (ltb (length buf) (size_add offset' len)) truncated_payload
        >> (slice buf offset' len >>= λ out. ok (out, size_add offset' len)))
unfolding read_bytes read_word
read_bytes-parts buf offset = simp >>=_assoc

slice-append :
    (buf pre b rest : Bytes) → buf ≡ pre ++ (b ++ rest) → slice buf (length pre) (length b) ≡ ok b
unfolding slice
slice-append buf pre b rest split =
    let whole = ap length split ∙ length-append pre (b ++ rest) in
    let inside =
      le→ltb (length buf) (length pre + length b) (omega (arith, whole, length-append b rest)) in
    rw inside (ap ok (rw (split, drop-append pre (b ++ rest)) (take-append b rest)))

abbrev pub IsBlock : Bytes → Type 0
IsBlock b = All IsByte b × IsU32 (length b)

abbrev pub block : Bytes → Bytes
block b = le32 (length b) ++ b

pub read_bytes-block :
    (buf pre rest : Bytes) (b : Bytes)
    → IsBlock b
    → IsBuffer buf
    → buf ≡ pre ++ (block b ++ rest)
    → read_bytes buf (length pre) ≡ ok (b, length (pre ++ block b))
unfolding u32_format
read_bytes-block buf pre rest b (bytes, wide) small split =
    let behind = pre ++ le32 (length b) in
    let split' : buf ≡ behind ++ (b ++ rest) = split ∙ simp append_assoc in
    let prefix =
      (u32_format truncated_length_prefix).read-encode buf pre (b ++ rest) (length b) wide small
        (split ∙ simp append_assoc) in
    let (passes, moved) = room buf behind b rest small split' in
    rw (read_bytes-parts, prefix, passes, slice-append buf behind b rest split', moved)
      (ap (λ (t : Bytes). ok (b, length t)) (append_assoc pre _ b))

IsBlock-of_take :
    (len : ℕ) (rest : Bytes)
    → IsU32 len
    → All IsByte rest
    → len ≤ length rest
    → IsBlock (take len rest)
IsBlock-of_take len rest wide bytes h =
    (All-take IsByte len rest bytes, omega (arith, length-take len rest h))

split_block :
    (len : ℕ) (rest : Bytes)
    → len ≤ length rest
    → le32 len ++ rest ≡ block (take len rest) ++ drop len rest
split_block len rest h =
    rw (length-take len rest h)
      (ap (λ (t : Bytes). le32 len ++ t) (sym (take-append-drop len rest)))

pub read_bytes_cases :
    (buf pre s : Bytes)
    → All IsByte s
    → IsBuffer buf
    → buf ≡ pre ++ s
    → ((b : Bytes) × (rest : Bytes) × IsBlock b × (s ≡ block b ++ rest))
      ⊎ ((x : Error) × (read_bytes buf (length pre) ≡ err x))
unfolding u32_format
read_bytes_cases buf pre s bytes small split =
    elim ((u32_format truncated_length_prefix).read_cases buf pre s bytes small split) [
      | inr (x, failed) ↦ inr (x, rw (read_bytes-parts, failed))
      | inl (len, rest, wide, cut) ↦
          let prefix =
            (u32_format truncated_length_prefix).read-encode buf pre rest len wide small
              (split ∙ ap (◌++◌ pre) cut) in
          let behind : buf ≡ (pre ++ le32 len) ++ rest =
            split ∙ rw cut (sym (append_assoc pre _ _)) in
          elim (Bool-cases (ltb (length rest) len)) [
            | inl short ↦
                let lacks =
                  no_room buf (pre ++ le32 len) rest len small behind (ltb→lt _ _ short)
                    (omega arith) in
                inr (truncated_payload, rw (read_bytes-parts, prefix, lacks))
            | inr long ↦
                let left : All IsByte rest =
                  All-append_right IsByte (le32 len) rest (subst (All IsByte) cut bytes) in
                inl (
                  take len rest,
                  drop len rest,
                  IsBlock-of_take len rest wide left (ltb→le _ _ long),
                  cut ∙ split_block len rest (ltb→le _ _ long),
                )
          ]
    ]

unfoldable pub block_format : Format Bytes
block_format = record {
  IsFit = IsBlock;
  encode = block;
  read = read_bytes;
  encode-IsByte = λ b (bytes, _). All-append IsByte (le32 (length b)) b (le32-IsByte _) bytes;
  read-encode = read_bytes-block;
  read_cases = read_bytes_cases;
}
