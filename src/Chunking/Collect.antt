-- ===== src/Chunking/Collect.antt =====
-- What `SendFileChunks` of core/src/chunking.cpp hands to its sink: a sink that keeps each chunk it
-- is given has all the chunks of the file, in order.
use off_drop.Base.{ℕ, zero, suc, ◌≡◌, ◌⊎◌, inl, inr, refl, sym, ap, ◌∙◌, subst, arith}
use off_drop.Base.{List, [], ◌∷◌, ◌++◌, length, All, length-append, get_elem?, some, none}
use off_drop.Base.Result.{ok}
use off_drop.Protocol.{Bytes, IsByte, ChunkPayload}
use off_drop.Files.{FileSystem, open_in}
use off_drop.OpenSsl.{OpenSsl}
use off_drop.OpenSsl.Documented.{Standard, Documented}
use off_drop.Chunking.{Machine, ChunkSink, chunk_count, send_file_chunks}
use off_drop.Chunking.Blocks.{IsSendable}
use off_drop.Chunking.Sending.{IsSent, send_file_chunks_ends}

-- A sink that keeps what it is given.
pub collect : (lib : OpenSsl) → ChunkSink lib (List ChunkPayload)
collect lib chunk (m, chunks) = (ok tt, (m, chunks ++ chunk ∷ []))

-- The sink holds the chunks of the first `i` blocks, each as it should be, and no file is changed.
pub record HasSent (lib : OpenSsl) (key file : Bytes) (disk : FileSystem) (i : ℕ)
    (s : Machine lib × List ChunkPayload) : Type 0 where
  pub files : s.0.disk ≡ disk
  pub count : length s.1 ≡ i
  pub each : (j : ℕ) (c : ChunkPayload) → get_elem? s.1 j ≡ some c → IsSent lib key file j c

get_elem?-last :
    (cs : List ChunkPayload) (c d : ChunkPayload) (j : ℕ)
    → get_elem? (cs ++ c ∷ []) j ≡ some d
    → (get_elem? cs j ≡ some d) ⊎ ((length cs ≡ j) × (some c ≡ some d))
get_elem?-last [] c d zero e = inr (refl, e)
get_elem?-last [] c d (suc j) e = cc
get_elem?-last (x ∷ cs) c d zero e = inl e
get_elem?-last (x ∷ cs) c d (suc j) e = elim (get_elem?-last cs c d j e) [
  | inl old ↦ inl old
  | inr (here, same) ↦ inr (ap suc here, same)
]

some-injective : {c d : ChunkPayload} → some c ≡ some d → c ≡ d
some-injective e = cc

module _ (lib : OpenSsl) (key file : Bytes) (disk : FileSystem) where
  collect-HasSent :
      (i : ℕ) (c : ChunkPayload) (s : Machine lib × List ChunkPayload)
      → IsSent lib key file i c
      → HasSent lib key file disk i s
      → (s' : Machine lib × List ChunkPayload) × (collect lib c s ≡ (ok tt, s'))
        × HasSent lib key file disk (suc i) s'
  unfolding collect
  collect-HasSent i c (m, chunks) sent v = (
    (m, chunks ++ c ∷ []),
    refl,
    record {
      files = v.files;
      count = omega (arith, length-append chunks (c ∷ []), v.count);
      each = λ j d e. elim (get_elem?-last chunks c d j e) [
        | inl old ↦ v.each j d old
        | inr (here, same) ↦
            subst (λ k. IsSent lib key file k d) (sym v.count ∙ here)
              (subst (IsSent lib key file i) (some-injective same) sent)
      ];
    },
  )

module _ (lib : OpenSsl) (std : Standard) (doc : Documented lib std) where
  -- `send_file_chunks` with a sink that keeps each chunk returns, and the sink has one chunk for each
  -- block of the file, in order: its index is its place, the session key opens it to that block, and
  -- its parts fit the wire. No file is changed. The file is of bytes, is below 32 TB and can be
  -- opened, and the library keeps to its manual.
  pub send_file_chunks-HasSent :
      (key file path : Bytes) (m : Machine lib)
      → IsSendable file
      → All IsByte file
      → open_in m.disk path ≡ some file
      → (s : Machine lib × List ChunkPayload) × (send_file_chunks lib key (collect lib) path (m, [])
          ≡ (ok tt, s))
        × HasSent lib key file m.disk (chunk_count (length file)) s
  send_file_chunks-HasSent key file path m sendable bytes opened =
      send_file_chunks_ends lib std doc key file sendable bytes (collect lib)
        (HasSent lib key file m.disk)
        (λ i n t w v. record { files = v.files; count = v.count; each = v.each })
        (collect-HasSent lib key file m.disk) path m [] opened
        (record { files = refl; count = refl; each = λ j c e. absurd (none-ne-some e) })
    where
      none-ne-some : {c : ChunkPayload} → ¬ (none ≡ some c)
      none-ne-some e = cc
