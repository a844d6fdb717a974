-- ===== src/Protocol/Payloads.antt =====
-- The three payloads of core/src/protocol.cpp: HELLO, FILE_OFFER and CHUNK. What an encoder writes
-- is read back, and a decoder never reads outside of its payload.
use off_drop.Base.{ℕ, ◌+◌, ◌≡◌, refl, ap, ◌∙◌, arith}
use off_drop.Base.{◌∷◌, ◌++◌, length, length-append, All, append_assoc}
use off_drop.Base.Result.{Error, ok, err, >>=_assoc}
use off_drop.Base.Result.{truncated_file_size, truncated_total_chunks, truncated_chunk_index}
use off_drop.Protocol.{Bytes, IsByte, IsU32, IsU64, put_bytes, put_string}
use off_drop.Protocol.{HelloPayload, FileOfferPayload, ChunkPayload}
use off_drop.Protocol.{encode_hello, decode_hello, encode_file_offer, decode_file_offer}
use off_drop.Protocol.{encode_chunk, decode_chunk}
use off_drop.Protocol.Words.{le32, put_u32-le32, put_u64-le64}
use off_drop.Protocol.Format.{pair, IsBuffer}
use off_drop.Protocol.Fields.{u32_format, u64_format, block_format, block, IsBlock}
use off_drop.Protocol.Codec.{Codec, Decodes, decode-encode, decode_cases, decode_truncated}
use native.Mathlib.Nat.{mod-eq_of_lt}

put_bytes-block : (buf b : Bytes) → IsBlock b → put_bytes buf b ≡ buf ++ block b
unfolding put_bytes
put_bytes-block buf b (bytes, wide) = simp (put_u32-le32, mod-eq_of_lt wide, append_assoc)

put_string-block : (buf b : Bytes) → IsBlock b → put_string buf b ≡ buf ++ block b
unfolding put_string
put_string-block buf b (bytes, wide) = simp (put_u32-le32, mod-eq_of_lt wide, append_assoc)

abbrev pub IsHello : HelloPayload → Type 0
IsHello p = IsBlock p.device_name × IsBlock p.x25519_public_key

hello_codec : Codec HelloPayload (Bytes × Bytes)
unfolding pair block_format encode_hello decode_hello
hello_codec = record {
  format = pair block_format block_format;
  parts = λ p. (p.device_name, p.x25519_public_key);
  make = λ (name, key). record { device_name = name; x25519_public_key = key };
  parts-make = λ a. refl;
  make-parts = λ p. refl;
  encode = encode_hello;
  decode = decode_hello;
  encode_parts = λ p (name, key). put_bytes-block _ _ key ∙ rw (put_string-block _ _ name) refl;
  decode_parts = λ payload. simp >>=_assoc;
}

-- `decode_hello` gives back the payload that `encode_hello` wrote, if its name and key are bytes and
-- their lengths fit 32 bits, whatever follows it in the buffer, which is shorter than 2^63.
pub decode_hello-encode_hello :
    (p : HelloPayload) (rest : Bytes)
    → IsHello p
    → IsBuffer (encode_hello p ++ rest)
    → decode_hello (encode_hello p ++ rest) ≡ ok p
unfolding hello_codec
decode_hello-encode_hello p rest fits small = decode-encode hello_codec p rest fits small

-- On every buffer of bytes, shorter than 2^63, `decode_hello` gives a payload, with whose encoding
-- the buffer begins, or throws an exception. It never reads outside of the buffer.
pub decode_hello_cases :
    (payload : Bytes)
    → All IsByte payload
    → IsBuffer payload
    → Decodes IsHello encode_hello decode_hello payload
unfolding hello_codec
decode_hello_cases payload bytes small = decode_cases hello_codec payload bytes small

-- `decode_hello` throws an exception on every proper prefix of what `encode_hello` wrote, for a
-- payload of which the name and key fit their widths.
pub decode_hello_truncated :
    (p : HelloPayload) (front back : Bytes) (x : ℕ)
    → IsHello p
    → IsBuffer (encode_hello p)
    → encode_hello p ≡ front ++ x ∷ back
    → (e : Error) × (decode_hello front ≡ err e)
unfolding hello_codec
decode_hello_truncated p front back x fits small split =
    decode_truncated hello_codec p front back x fits small split

abbrev pub IsFileOffer : FileOfferPayload → Type 0
IsFileOffer p =
    IsBlock p.file_name × (IsU64 p.file_size × (IsBlock p.sha256 × IsU32 p.total_chunks))

file_offer_codec : Codec FileOfferPayload (Bytes × (ℕ × (Bytes × ℕ)))
unfolding pair block_format u64_format u32_format encode_file_offer decode_file_offer
file_offer_codec = record {
  format = pair block_format (
      pair (u64_format truncated_file_size)
        (pair block_format (u32_format truncated_total_chunks)));
  parts = λ p. (p.file_name, (p.file_size, (p.sha256, p.total_chunks)));
  make = λ (name, (size, (hash, chunks))). record {
    file_name = name;
    file_size = size;
    sha256 = hash;
    total_chunks = chunks;
  };
  parts-make = λ a. refl;
  make-parts = λ p. refl;
  encode = encode_file_offer;
  decode = decode_file_offer;
  encode_parts = λ p (name, (_, (hash, _))).
      rw (put_u32-le32, put_bytes-block _ _ hash, put_u64-le64, put_string-block _ _ name)
        (simp append_assoc);
  decode_parts = λ payload. simp >>=_assoc;
}

-- `decode_file_offer` gives back the offer that `encode_file_offer` wrote, if its name and hash are
-- bytes and its lengths and numbers fit their widths, whatever follows it in the buffer, which is
-- shorter than 2^63.
pub decode_file_offer-encode_file_offer :
    (p : FileOfferPayload) (rest : Bytes)
    → IsFileOffer p
    → IsBuffer (encode_file_offer p ++ rest)
    → decode_file_offer (encode_file_offer p ++ rest) ≡ ok p
unfolding file_offer_codec
decode_file_offer-encode_file_offer p rest fits small =
    decode-encode file_offer_codec p rest fits small

-- On every buffer of bytes, shorter than 2^63, `decode_file_offer` gives an offer, with whose
-- encoding the buffer begins, or throws an exception. It never reads outside of the buffer.
pub decode_file_offer_cases :
    (payload : Bytes)
    → All IsByte payload
    → IsBuffer payload
    → Decodes IsFileOffer encode_file_offer decode_file_offer payload
unfolding file_offer_codec
decode_file_offer_cases payload bytes small = decode_cases file_offer_codec payload bytes small

-- `decode_file_offer` throws an exception on every proper prefix of what `encode_file_offer` wrote,
-- for a payload of which the name, hash and numbers fit their widths.
pub decode_file_offer_truncated :
    (p : FileOfferPayload) (front back : Bytes) (x : ℕ)
    → IsFileOffer p
    → IsBuffer (encode_file_offer p)
    → encode_file_offer p ≡ front ++ x ∷ back
    → (e : Error) × (decode_file_offer front ≡ err e)
unfolding file_offer_codec
decode_file_offer_truncated p front back x fits small split =
    decode_truncated file_offer_codec p front back x fits small split

abbrev pub IsChunk : ChunkPayload → Type 0
IsChunk p = IsU32 p.chunk_index × (IsBlock p.nonce × (IsBlock p.ciphertext × IsBlock p.tag))

chunk_codec : Codec ChunkPayload (ℕ × (Bytes × (Bytes × Bytes)))
unfolding pair block_format u32_format encode_chunk decode_chunk
chunk_codec = record {
  format =
      pair (u32_format truncated_chunk_index) (pair block_format (pair block_format block_format));
  parts = λ p. (p.chunk_index, (p.nonce, (p.ciphertext, p.tag)));
  make = λ (index, (nonce, (ciphertext, tag))). record {
    chunk_index = index;
    nonce = nonce;
    ciphertext = ciphertext;
    tag = tag;
  };
  parts-make = λ a. refl;
  make-parts = λ p. refl;
  encode = encode_chunk;
  decode = decode_chunk;
  encode_parts = λ p (_, (nonce, (ciphertext, tag))).
      put_bytes-block _ p.tag tag
      ∙ rw
          (put_bytes-block _ p.ciphertext ciphertext, put_bytes-block _ p.nonce nonce, put_u32-le32)
          (simp append_assoc);
  decode_parts = λ payload. simp >>=_assoc;
}

-- `decode_chunk` gives back the chunk that `encode_chunk` wrote, if its three blocks are bytes and
-- their lengths and the index fit 32 bits, whatever follows it in the buffer, which is shorter than
-- 2^63.
pub decode_chunk-encode_chunk :
    (p : ChunkPayload) (rest : Bytes)
    → IsChunk p
    → IsBuffer (encode_chunk p ++ rest)
    → decode_chunk (encode_chunk p ++ rest) ≡ ok p
unfolding chunk_codec
decode_chunk-encode_chunk p rest fits small = decode-encode chunk_codec p rest fits small

-- On every buffer of bytes, shorter than 2^63, `decode_chunk` gives a chunk, with whose encoding
-- the buffer begins, or throws an exception. It never reads outside of the buffer.
pub decode_chunk_cases :
    (payload : Bytes)
    → All IsByte payload
    → IsBuffer payload
    → Decodes IsChunk encode_chunk decode_chunk payload
unfolding chunk_codec
decode_chunk_cases payload bytes small = decode_cases chunk_codec payload bytes small

-- `decode_chunk` throws an exception on every proper prefix of what `encode_chunk` wrote, for a
-- payload of which the blocks and index fit their widths.
pub decode_chunk_truncated :
    (p : ChunkPayload) (front back : Bytes) (x : ℕ)
    → IsChunk p
    → IsBuffer (encode_chunk p)
    → encode_chunk p ≡ front ++ x ∷ back
    → (e : Error) × (decode_chunk front ≡ err e)
unfolding chunk_codec
decode_chunk_truncated p front back x fits small split =
    decode_truncated chunk_codec p front back x fits small split

pub length-encode_chunk :
    (p : ChunkPayload)
    → IsChunk p
    → length (encode_chunk p) ≡ 16 + (length p.nonce + length p.ciphertext + length p.tag)
unfolding chunk_codec
length-encode_chunk p fits = omega (
  arith,
  ap length (chunk_codec.encode_parts p fits),
  length-append (block p.nonce) (block p.ciphertext ++ block p.tag),
  length-append (block p.ciphertext) (block p.tag),
  length-append (le32 (length p.nonce)) p.nonce,
  length-append (le32 (length p.ciphertext)) p.ciphertext,
  length-append (le32 (length p.tag)) p.tag,
)
