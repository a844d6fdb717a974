-- ===== src/Protocol/Codec.antt =====
-- A payload of core/src/protocol.cpp whose encoder writes one format and whose decoder reads it from
-- the front: what the two functions do together.
use off_drop.Base.{ℕ, ◌≡◌, refl, sym, ap, ◌∙◌, subst, ◌⊎◌, inl, inr, arith}
use off_drop.Base.{
  [], ◌∷◌, ◌++◌, length, length-append, All, All-append_left, append-nil, append_assoc,
}
use off_drop.Base.Result.{Error, Result, ok, err, ◌>>=◌}
use off_drop.Protocol.{Bytes, IsByte}
use off_drop.Protocol.Format.{Format, IsBuffer}

-- `P` is the payload's struct, and `A` the tuple of its fields.
pub record Codec (P : Type 0) (A : Type 0) : Type 1 where
  pub format : Format A
  pub parts : P → A
  pub make : A → P
  pub parts-make : (a : A) → parts (make a) ≡ a
  pub make-parts : (p : P) → make (parts p) ≡ p
  pub encode : P → Bytes
  pub decode : Bytes → Result P
  pub encode_parts : (p : P) → format.IsFit (parts p) → encode p ≡ format.encode (parts p)
  pub decode_parts :
      (payload : Bytes) → decode payload ≡ (format.read payload 0 >>= λ (a, _). ok (make a))

-- An outcome of a decoder: the payload with whose encoding the bytes begin, or an exception. It is
-- neither on undefined behaviour.
abbrev pub Decodes : {P : Type 0} → (P → Type 0) → (P → Bytes) → (Bytes → Result P) → Bytes → Type 0
Decodes {P} Fit encode decode payload =
    ((p : P) × (rest : Bytes) × Fit p × (payload ≡ encode p ++ rest) × (decode payload ≡ ok p))
    ⊎ ((e : Error) × (decode payload ≡ err e))

module _ {P A : Type 0} (c : Codec P A) where
  pub decode-encode :
      (p : P) (rest : Bytes)
      → c.format.IsFit (c.parts p)
      → IsBuffer (c.encode p ++ rest)
      → c.decode (c.encode p ++ rest) ≡ ok p
  decode-encode p rest fits small =
      let written = ap (λ (t : Bytes). t ++ rest) (c.encode_parts p fits) in
      let got = c.format.read-encode (c.encode p ++ rest) [] rest (c.parts p) fits small written in
      c.decode_parts _ ∙ rw got (ap ok (c.make-parts p))

  abbrev Fit : P → Type 0
  Fit p = c.format.IsFit (c.parts p)

  pub decode_cases :
      (payload : Bytes)
      → All IsByte payload
      → IsBuffer payload
      → Decodes Fit c.encode c.decode payload
  decode_cases payload bytes small =
      elim (c.format.read_cases payload [] payload bytes small refl) [
        | inr (e, failed) ↦ inr (e, c.decode_parts payload ∙ rw failed)
        | inl (a, rest, fits, split) ↦
            let fits' = subst c.format.IsFit (sym (c.parts-make a)) fits in
            let written = c.encode_parts (c.make a) fits' ∙ ap c.format.encode (c.parts-make a) in
            let split' : payload ≡ c.encode (c.make a) ++ rest =
              split ∙ ap (λ (t : Bytes). t ++ rest) (sym written) in
            let got = decode-encode (c.make a) rest fits' (subst IsBuffer split' small) in
            inl (c.make a, rest, fits', split', ap c.decode split' ∙ got)
      ]

  -- What one payload begins with, no other does.
  same_payload :
      (p q : P) (rest : Bytes)
      → c.format.IsFit (c.parts p)
      → c.format.IsFit (c.parts q)
      → IsBuffer (c.encode p)
      → c.encode p ≡ c.encode q ++ rest
      → p ≡ q
  same_payload p q rest fp fq small split =
      let alone = sym (append-nil (c.encode p)) in
      let one = ap c.decode alone ∙ decode-encode p [] fp (subst IsBuffer alone small) in
      let two = ap c.decode split ∙ decode-encode q rest fq (subst IsBuffer split small) in
      cc (sym one ∙ two)

  pub decode_truncated :
      (p : P) (front back : Bytes) (x : ℕ)
      → c.format.IsFit (c.parts p)
      → IsBuffer (c.encode p)
      → c.encode p ≡ front ++ x ∷ back
      → (e : Error) × (c.decode front ≡ err e)
  decode_truncated p front back x fits small split =
      let bytes =
        subst (All IsByte) (sym (c.encode_parts p fits) ∙ split) (c.format.encode-IsByte _ fits) in
      let wide = ap length split ∙ length-append front (x ∷ back) in
      let small' : IsBuffer front = omega (arith, wide) in
      elim (decode_cases front (All-append_left IsByte front (x ∷ back) bytes) small') [
        | inr failed ↦ failed
        | inl (q, rest, fits', cut, _) ↦
            let whole : c.encode p ≡ c.encode q ++ (rest ++ x ∷ back) =
              split ∙ rw cut (append_assoc (c.encode q) rest (x ∷ back)) in
            let same =
              ap (λ (t : P). length (c.encode t)) (same_payload p q _ fits fits' small whole) in
            absurd (omega (arith, same, wide, ap length cut, length-append (c.encode q) rest))
      ]
