-- ===== src/Chunking/Assembly.antt =====
-- A whole transfer on the receiving side of core/src/chunking.cpp: the constructor, the chunks in
-- any order, and the checks at the end.
use off_drop.Base.{ℕ, ◌+◌, ◌*◌, ◌/◌, ◌%◌, ◌<◌, ◌≡◌, ◌⊎◌, inl, inr}
use off_drop.Base.{refl, sym, ◌∙◌, subst, arith, List, [], ◌∷◌, length, get_elem?}
use off_drop.Base.{All, true, some}
use off_drop.Base.Result.{ok}
use off_drop.Base.Action.{Action, pure, ◌>>◌}
use off_drop.Protocol.{Bytes, chunk_size, ChunkPayload}
use off_drop.Files.{FileSystem}
use off_drop.Files.Blocks.{list_ext}
use off_drop.OpenSsl.{OpenSsl}
use off_drop.Chunking.{FileReceiver, Machine}
use off_drop.Chunking.{receive_chunk, is_complete}
use off_drop.Chunking.Blocks.{IsSendable, chunk_count-div}
use off_drop.Chunking.Mask.{count_true, full-count_true}
use off_drop.Chunking.Receiving.{IsReceiving, IsGenuine, Received, receive_chunk-Received}
use native.Mathlib.Decide.{ℕ_discrete}

-- `for (auto& c : chunks) receiver.ReceiveChunk(key, c);`
unfoldable pub receive_all :
    (lib : OpenSsl) → Bytes → List ChunkPayload → Action (Machine lib × FileReceiver) (Unit {0})
receive_all lib key [] = pure tt
receive_all lib key (c ∷ chunks) = receive_chunk lib key c >> receive_all lib key chunks

-- The chunk `i` is among those that come.
abbrev pub Comes : ℕ → List ChunkPayload → Type 0
Comes i [] = ⊥
Comes i (c ∷ chunks) = (c.chunk_index ≡ i) ⊎ Comes i chunks

-- A file that has all its chunks is the one that was sent.
pub is_complete-eq :
    (file : Bytes) (fs : FileSystem) (r : FileReceiver) (d : Bytes)
    → IsSendable file
    → IsReceiving file fs r d
    → is_complete r ≡ true
    → d ≡ file
unfolding is_complete
is_complete-eq file fs r d sendable v e = list_ext d file v.size at
  where
    at : (j : ℕ) → j < length d → get_elem? d j ≡ get_elem? file j
    at j h =
        let i = j / chunk_size in
        let k = j % chunk_size in
        let place : i * chunk_size + k ≡ j = omega arith in
        let inside : i < r.total_chunks =
          omega (arith, v.total, v.size, chunk_count-div (length file) sendable) in
        let full : count_true r.received_mask ≡ length r.received_mask =
          ground (arith, v.valid.counted, v.valid.wide) in
        let come = full-count_true r.received_mask i full (omega (arith, v.valid.wide)) in
        rw place at (v.blocks i come k (omega arith))

-- What a run of chunks does to a transfer that is under way.
pub record Delivered (lib : OpenSsl) (file : Bytes) (chunks : List ChunkPayload) (m' : Machine lib)
    (r r' : FileReceiver) (d' : Bytes) : Type 0 where
  pub receiving : IsReceiving file m'.disk r' d'
  pub path : r'.output_path ≡ r.output_path
  pub hash : r'.expected_sha256 ≡ r.expected_sha256
  pub come :
      (i : ℕ)
      → (get_elem? r.received_mask i ≡ some true) ⊎ Comes i chunks
      → get_elem? r'.received_mask i ≡ some true
  pub only :
      (i : ℕ)
      → get_elem? r'.received_mask i ≡ some true
      → (get_elem? r.received_mask i ≡ some true) ⊎ Comes i chunks

module _ (lib : OpenSsl) (key file : Bytes) (sendable : IsSendable file) where
  first_then :
      (c : ChunkPayload) (chunks : List ChunkPayload) (m m' m'' : Machine lib)
      (r r' r'' : FileReceiver) (d' d'' : Bytes)
      → Received lib file c.chunk_index m m' r r' d'
      → Delivered lib file chunks m'' r' r'' d''
      → Delivered lib file (c ∷ chunks) m'' r r'' d''
  first_then c chunks m m' m'' r r' r'' d' d'' one rest = record {
    receiving = rest.receiving;
    path = rest.path ∙ one.offer.output_path;
    hash = rest.hash ∙ one.offer.expected_sha256;
    come = λ i h. rest.come i (now i h);
    only = λ i e. before i (rest.only i e);
  }
    where
      now :
          (i : ℕ)
          → (get_elem? r.received_mask i ≡ some true) ⊎ ((c.chunk_index ≡ i) ⊎ Comes i chunks)
          → (get_elem? r'.received_mask i ≡ some true) ⊎ Comes i chunks
      now i h = elim (ℕ_discrete c.chunk_index i) [
        | yes e ↦ inl (subst (λ t. get_elem? r'.received_mask t ≡ some true) e one.here)
        | no ne ↦ elim h [
          | inl old ↦ inl (one.kept i ne ∙ old)
          | inr (inl e) ↦ absurd (ne e)
          | inr (inr later) ↦ inr later
        ]
      ]

      before :
          (i : ℕ)
          → (get_elem? r'.received_mask i ≡ some true) ⊎ Comes i chunks
          → (get_elem? r.received_mask i ≡ some true) ⊎ ((c.chunk_index ≡ i) ⊎ Comes i chunks)
      before i h = elim (ℕ_discrete c.chunk_index i) [
        | yes e ↦ inr (inl e)
        | no ne ↦ elim h [ inl new ↦ inl (sym (one.kept i ne) ∙ new) | inr later ↦ inr (inr later) ]
      ]

  -- Chunks of the file are all accepted, in any order and as often as they come, and exactly those
  -- that came are marked.
  pub receive_all-Delivered :
      (chunks : List ChunkPayload) (m : Machine lib) (r : FileReceiver) (d : Bytes)
      → All (IsGenuine lib key file) chunks
      → IsReceiving file m.disk r d
      → (m' : Machine lib) × (r' : FileReceiver) × (d' : Bytes) × (receive_all lib key chunks (m, r)
          ≡ (ok tt, (m', r')))
        × Delivered lib file chunks m' r r' d'
  unfolding receive_all
  receive_all-Delivered [] m r d _ v = (
    m,
    r,
    d,
    refl,
    record {
      receiving = v;
      path = refl;
      hash = refl;
      come = λ i h. elim h [ inl e ↦ e | inr never ↦ absurd never ];
      only = λ i e. inl e;
    },
  )
  receive_all-Delivered (c ∷ chunks) m r d (g, gs) v =
      let (m1, r1, d1, first, one) = receive_chunk-Received lib key file sendable c m r d g v in
      let (m2, r2, d2, rest, more) = receive_all-Delivered chunks m1 r1 d1 gs one.receiving in
      (m2, r2, d2, rw (first, rest) refl, first_then c chunks m m1 m2 r r1 r2 d1 d2 one more)
