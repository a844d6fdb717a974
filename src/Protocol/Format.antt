-- ===== src/Protocol/Format.antt =====
-- How the payloads of core/src/protocol.cpp are put together: a format writes a value, and reads it
-- back from an offset of a buffer. Formats in sequence are a format.
use off_drop.Base.{ℕ, ◌^◌, ◌<◌, ◌≡◌, sym, ap, ◌∙◌, subst, ◌⊎◌, inl, inr}
use off_drop.Base.{◌++◌, length, All, All-append, All-append_right, append_assoc}
use off_drop.Base.Result.{Error, Result, ok, err, ◌>>=◌}
use off_drop.Protocol.{Bytes, IsByte}

-- The buffers of a 64-bit machine.
abbrev pub IsBuffer : Bytes → Type 0
IsBuffer buf = length buf < 2 ^ 63

pub record Format (A : Type 0) : Type 1 where
  pub IsFit : A → Type 0
  pub encode : A → Bytes
  pub read : Bytes → ℕ → Result (A × ℕ)
  pub encode-IsByte : (a : A) → IsFit a → All IsByte (encode a)
  pub read-encode :
      (buf pre rest : Bytes) (a : A)
      → IsFit a
      → IsBuffer buf
      → buf ≡ pre ++ (encode a ++ rest)
      → read buf (length pre) ≡ ok (a, length (pre ++ encode a))
  pub read_cases :
      (buf pre s : Bytes)
      → All IsByte s
      → IsBuffer buf
      → buf ≡ pre ++ s
      → ((a : A) × (rest : Bytes) × IsFit a × (s ≡ encode a ++ rest))
        ⊎ ((e : Error) × (read buf (length pre) ≡ err e))

module _ {A B : Type 0} (F : Format A) (G : Format B) where
  pair_encode : A × B → Bytes
  pair_encode (a, b) = F.encode a ++ G.encode b

  pair_read : Bytes → ℕ → Result ((A × B) × ℕ)
  pair_read buf offset = do
    (a, offset') ← F.read buf offset
    (b, offset'') ← G.read buf offset'
    ok ((a, b), offset'')

  abbrev PairFit : A × B → Type 0
  PairFit (a, b) = F.IsFit a × G.IsFit b

  pair_encode-IsByte : (p : A × B) → PairFit p → All IsByte (pair_encode p)
  unfolding pair_encode
  pair_encode-IsByte (a, b) (fa, fb) =
      All-append IsByte (F.encode a) (G.encode b) (F.encode-IsByte a fa) (G.encode-IsByte b fb)

  pair_read-encode :
      (buf pre rest : Bytes) (p : A × B)
      → PairFit p
      → IsBuffer buf
      → buf ≡ pre ++ (pair_encode p ++ rest)
      → pair_read buf (length pre) ≡ ok (p, length (pre ++ pair_encode p))
  unfolding pair_encode pair_read
  pair_read-encode buf pre rest (a, b) (fa, fb) small e =
      let first = F.read-encode buf pre (G.encode b ++ rest) a fa small (e ∙ simp append_assoc) in
      let second = G.read-encode buf (pre ++ F.encode a) rest b fb small (e ∙ simp append_assoc) in
      rw (first, second) (ap (λ (t : Bytes). ok ((a, b), length t)) (append_assoc pre _ _))

  pair_read_cases :
      (buf pre s : Bytes)
      → All IsByte s
      → IsBuffer buf
      → buf ≡ pre ++ s
      → ((p : A × B) × (rest : Bytes) × PairFit p × (s ≡ pair_encode p ++ rest))
        ⊎ ((e : Error) × (pair_read buf (length pre) ≡ err e))
  unfolding pair_encode pair_read
  pair_read_cases buf pre s bytes small e = elim (F.read_cases buf pre s bytes small e) [
    | inr (x, failed) ↦ inr (x, rw failed)
    | inl (a, rest, fits, split) ↦
        let whole : buf ≡ (pre ++ F.encode a) ++ rest = e ∙ rw split (sym (append_assoc pre _ _)) in
        let first = F.read-encode buf pre rest a fits small (e ∙ ap (◌++◌ pre) split) in
        let left : All IsByte rest =
          All-append_right IsByte (F.encode a) rest (subst (All IsByte) split bytes) in
        elim (G.read_cases buf (pre ++ F.encode a) rest left small whole) [
          | inr (x, failed) ↦ inr (x, rw (first, failed))
          | inl (b, rest', fits', split') ↦
              inl ((a, b), rest', (fits, fits'), split ∙ rw split' (sym (append_assoc _ _ rest')))
        ]
  ]

  unfoldable pub pair : Format (A × B)
  unfolding pair_encode pair_read pair_encode-IsByte pair_read-encode pair_read_cases
  pair = record {
    IsFit = PairFit;
    encode = pair_encode;
    read = pair_read;
    encode-IsByte = pair_encode-IsByte;
    read-encode = pair_read-encode;
    read_cases = pair_read_cases;
  }
