-- ===== src/Chunking/Transfer.antt =====
-- A whole transfer on the receiving side of core/src/chunking.cpp, over a library that keeps to its
-- manual.
use off_drop.Base.{ℕ, ◌<◌, ◌≡◌, ◌⊎◌, ◌↔◌, inl, inr, refl, sym, ap, ◌∙◌, arith}
use off_drop.Base.{List, length, All, true, some, ◌==◌, eq→==, get_elem?}
use off_drop.Base.Result.{ok}
use off_drop.Protocol.{Bytes, ChunkPayload}
use off_drop.Files.{FileSystem, IsWritable, open_in, open_in_out, bytes_eq, bytes_eq_refl}
use off_drop.OpenSsl.{OpenSsl}
use off_drop.OpenSsl.Documented.{Standard, Documented}
use off_drop.Crypto.Digest.{sha256_file-sha256}
use off_drop.Chunking.{
  FileReceiver, Machine, chunk_count, file_receiver, is_complete, verify_integrity,
}
use off_drop.Chunking.Blocks.{IsSendable}
use off_drop.Chunking.Mask.{count_true, count_true-full, full-count_true}
use off_drop.Chunking.Receiving.{IsReceiving, IsGenuine}
use off_drop.Chunking.Opening.{file_receiver-IsReceiving}
use off_drop.Chunking.Assembly.{Comes, receive_all, receive_all-Delivered, is_complete-eq}

pub open_in_of_in_out :
    (fs : FileSystem) (path d : Bytes) → open_in_out fs path ≡ some d → open_in fs path ≡ some d
unfolding open_in_out open_in
open_in_of_in_out fs path d h = ground arith

-- The receiver is complete exactly when the whole mask is set.
pub is_complete-full :
    (file : Bytes) (fs : FileSystem) (r : FileReceiver) (d : Bytes)
    → IsReceiving file fs r d
    → (is_complete r ≡ true)
      ↔ ((i : ℕ) → i < chunk_count (length file) → get_elem? r.received_mask i ≡ some true)
unfolding is_complete
is_complete-full file fs r d v = (forth, back)
  where
    forth :
        (r.received_count == r.total_chunks) ≡ true
        → (i : ℕ) → i < chunk_count (length file)
        → get_elem? r.received_mask i ≡ some true
    forth e i h =
        let full : count_true r.received_mask ≡ length r.received_mask =
          ground (arith, v.valid.counted, v.valid.wide) in
        full-count_true r.received_mask i full (omega (arith, v.valid.wide, v.total))

    back :
        ((i : ℕ) → i < chunk_count (length file) → get_elem? r.received_mask i ≡ some true)
        → (r.received_count == r.total_chunks) ≡ true
    back all =
        let full =
          count_true-full r.received_mask (λ i h. all i (omega (arith, v.valid.wide, v.total))) in
        eq→== _ _ (v.valid.counted ∙ full ∙ v.valid.wide)

-- What a transfer leaves behind: the receiver is complete, its output file holds the file's bytes,
-- and `verify_integrity` confirms them.
pub record IsIntact (lib : OpenSsl) (file dst : Bytes) (s : Machine lib × FileReceiver)
    : Type 0 where
  pub complete : is_complete s.1 ≡ true
  pub whole : open_in s.0.disk dst ≡ some file
  pub verified : (m' : Machine lib) × (verify_integrity lib s.1 s.0 ≡ (ok true, m'))

module _ (lib : OpenSsl) (std : Standard) (doc : Documented lib std) where
  -- `verify_integrity` compares the hash of what the output file holds.
  pub verify_integrity-sha256 :
      (d : Bytes) (r : FileReceiver) (m : Machine lib)
      → open_in m.disk r.output_path ≡ some d
      → (w' : lib.World) × (verify_integrity lib r m
          ≡ (ok (bytes_eq (std.sha256 d) r.expected_sha256), record m { ssl = w' }))
  unfolding verify_integrity
  verify_integrity-sha256 d r m opened =
      let (w', hashed, _) = sha256_file-sha256 lib std doc m.disk r.output_path d m.ssl opened in
      (w', rw hashed refl)

  -- A file of the hash that was expected.
  pub verify_integrity-same :
      (file : Bytes) (r : FileReceiver) (m : Machine lib)
      → open_in_out m.disk r.output_path ≡ some file
      → r.expected_sha256 ≡ std.sha256 file
      → (m' : Machine lib) × (verify_integrity lib r m ≡ (ok true, m'))
  verify_integrity-same file r m there hash =
      let opened = open_in_of_in_out m.disk r.output_path file there in
      let (w', verified) = verify_integrity-sha256 file r m opened in
      (record m { ssl = w' }, verified ∙ rw (hash, bytes_eq_refl (std.sha256 file)) refl)

  -- A complete receiver of a transfer that is under way to `path`.
  pub is_complete-IsIntact :
      (file path : Bytes)
      → IsSendable file
      → (m : Machine lib) (r : FileReceiver) (d : Bytes) → IsReceiving file m.disk r d
      → r.output_path ≡ path
      → r.expected_sha256 ≡ std.sha256 file
      → is_complete r ≡ true
      → IsIntact lib file path (m, r)
  is_complete-IsIntact file path sendable m r d v at hash full =
      let same = is_complete-eq file m.disk r d sendable v full in
      let there = v.there ∙ ap some same in
      record {
        complete = full;
        whole = ap (open_in m.disk) (sym at) ∙ open_in_of_in_out m.disk r.output_path file there;
        verified = verify_integrity-same file r m there hash;
      }

  -- Chunks of one file, each in range and opened by the key to its block, in any order and with any
  -- repetition, are all accepted by a new receiver, and it is complete exactly when each index of
  -- the file has come. The file is below 32 TB and the output path may be read and takes each write
  -- whole.
  pub receive_all-is_complete :
      (key file path : Bytes) (m : Machine lib) (chunks : List ChunkPayload)
      → IsSendable file
      → m.disk.can_read path ≡ true
      → IsWritable m.disk path
      → All (IsGenuine lib key file) chunks
      → (r r' : FileReceiver) × (m0 m' : Machine lib) × (file_receiver lib path
            (length file)
            (chunk_count (length file))
            (std.sha256 file)
            m
          ≡ (ok r, m0))
        × (receive_all lib key chunks (m0, r) ≡ (ok tt, (m', r')))
        × ((is_complete r' ≡ true) ↔ ((i : ℕ) → i < chunk_count (length file) → Comes i chunks))
  receive_all-is_complete key file path m chunks sendable readable writable genuine =
      let (r, m0, d, made, v, _, _, never, _) =
        file_receiver-IsReceiving lib file path (std.sha256 file) m sendable readable writable in
      let (m', r', d', run, all) =
        receive_all-Delivered lib key file sendable chunks m0 r d genuine v in
      let full = is_complete-full file m'.disk r' d' all.receiving in
      (
        r,
        r',
        m0,
        m',
        made,
        run,
        (
          λ e i h. not_before i (never i) (all.only i (full.0 e i h)),
          λ come. full.1 (λ i h. all.come i (inr (come i h))),
        ),
      )
    where
      not_before : (i : ℕ) {A B : Type 0} → ¬ A → A ⊎ B → B
      not_before i never (inl old) = absurd (never old)
      not_before i never (inr new) = new

  -- When each index of the file has come, by chunks that the key opens to their blocks, in any
  -- order and with any repetition, a new receiver is complete, the output file holds the file's
  -- bytes, and `verify_integrity` confirms its hash. The file is below 32 TB, the output path may
  -- be read and takes each write whole, and the library keeps to its manual.
  pub receive_all-assembles :
      (key file path : Bytes) (m : Machine lib) (chunks : List ChunkPayload)
      → IsSendable file
      → m.disk.can_read path ≡ true
      → IsWritable m.disk path
      → All (IsGenuine lib key file) chunks
      → ((i : ℕ) → i < chunk_count (length file) → Comes i chunks)
      → (r r' : FileReceiver) × (m0 m' m'' : Machine lib) × (file_receiver lib path
            (length file)
            (chunk_count (length file))
            (std.sha256 file)
            m
          ≡ (ok r, m0))
        × (receive_all lib key chunks (m0, r) ≡ (ok tt, (m', r')))
        × (is_complete r' ≡ true)
        × (open_in m'.disk path ≡ some file)
        × (verify_integrity lib r' m' ≡ (ok true, m''))
  receive_all-assembles key file path m chunks sendable readable writable genuine come =
      let (r, m0, d, made, v, at, hash, _, _) =
        file_receiver-IsReceiving lib file path (std.sha256 file) m sendable readable writable in
      let (m', r', d', run, all) =
        receive_all-Delivered lib key file sendable chunks m0 r d genuine v in
      let complete =
        (is_complete-full file m'.disk r' d' all.receiving).1
          (λ i h. all.come i (inr (come i h))) in
      let whole = is_complete-eq file m'.disk r' d' sendable all.receiving complete in
      let there = all.receiving.there ∙ ap some whole in
      let (m'', verified) = verify_integrity-same file r' m' there (all.hash ∙ hash) in
      (
        r,
        r',
        m0,
        m',
        m'',
        made,
        run,
        complete,
        ap (open_in m'.disk) (sym at ∙ sym all.path)
            ∙ open_in_of_in_out m'.disk r'.output_path file there,
        verified,
      )
