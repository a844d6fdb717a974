-- ===== src/EndToEnd/Reorder.antt =====
-- The transfer out of order of core/tests/test_chunking_e2e.cpp: the chunks are kept, and given to
-- the receiver in another order.
use off_drop.Base.{ℕ, zero, suc, ◌<◌, ◌≡◌, refl, sym, ap, ◌∙◌, subst, arith, inl, inr}
use off_drop.Base.{List, [], ◌∷◌, length, All, get_elem?, true, some}
use off_drop.Base.Result.{ok}
use off_drop.Protocol.{Bytes, IsByte, ChunkPayload}
use off_drop.Files.{IsWritable, open_in}
use off_drop.Files.Blocks.{get_elem?_of_lt}
use off_drop.OpenSsl.{OpenSsl}
use off_drop.OpenSsl.Documented.{Standard, Documented}
use off_drop.Chunking.{Machine, FileReceiver, chunk_count, prepare_file_offer, file_receiver}
use off_drop.Chunking.{send_file_chunks, is_complete, verify_integrity}
use off_drop.Chunking.Blocks.{IsSendable}
use off_drop.Chunking.Receiving.{IsGenuine}
use off_drop.Chunking.Assembly.{receive_all, Comes}
use off_drop.Chunking.Transfer.{receive_all-assembles}
use off_drop.Chunking.Collect.{collect, send_file_chunks-HasSent}
use off_drop.Chunking.Offer.{offer_of, prepare_file_offer-offer_of}

-- The chunk stands in the list.
abbrev pub Stands : ChunkPayload → List ChunkPayload → Type 0
Stands c chunks = (i : ℕ) × (get_elem? chunks i ≡ some c)

All_of_each :
    (P : ChunkPayload → Type 0) (chunks : List ChunkPayload)
    → ((c : ChunkPayload) → Stands c chunks → P c)
    → All P chunks
All_of_each P [] each = tt
All_of_each P (c ∷ chunks) each =
    (each c (0, refl), All_of_each P chunks (λ d (i, here). each d (suc i, here)))

Comes-of_stands :
    (c : ChunkPayload) (chunks : List ChunkPayload) (i : ℕ)
    → get_elem? chunks i ≡ some c
    → Comes c.chunk_index chunks
Comes-of_stands c [] i here = cc
Comes-of_stands c (d ∷ chunks) zero here = inl (same here)
  where
    same : some d ≡ some c → d.chunk_index ≡ c.chunk_index
    same e = cc
Comes-of_stands c (d ∷ chunks) (suc i) here = inr (Comes-of_stands c chunks i here)

module _ (lib : OpenSsl) (std : Standard) (doc : Documented lib std) where
  -- The chunks of a file are kept while it is sent, and then given to a new receiver in any order and
  -- any number of times, so long as none is lost and none is added: there are as many as the offer
  -- says, each is accepted, the receiver is complete, the output file holds the file's bytes, and
  -- `verify_integrity` confirms its hash. The file is of bytes, is below 32 TB and can be opened, the
  -- output path may be read and takes each write whole, and the library keeps to its manual.
  pub receive_all-shuffled :
      (key file src dst : Bytes) (m : Machine lib) (shuffle : List ChunkPayload → List ChunkPayload)
      → IsSendable file
      → All IsByte file
      → m.disk.content src ≡ some file
      → open_in m.disk src ≡ some file
      → m.disk.can_read dst ≡ true
      → IsWritable m.disk dst
      → ((chunks : List ChunkPayload) (c : ChunkPayload)
          → Stands c (shuffle chunks)
          → Stands c chunks)
      → ((chunks : List ChunkPayload) (c : ChunkPayload)
          → Stands c chunks
          → Stands c (shuffle chunks))
      → let offer = offer_of std src file in
        (m1 m2 m3 m4 m5 : Machine lib) × (chunks : List ChunkPayload) × (r r' : FileReceiver)
        × (prepare_file_offer lib src m ≡ (ok offer, m1))
        × (send_file_chunks lib key (collect lib) src (m1, []) ≡ (ok tt, (m2, chunks)))
        × (length chunks ≡ offer.total_chunks)
        × (file_receiver lib dst offer.file_size offer.total_chunks offer.sha256 m2 ≡ (ok r, m3))
        × (receive_all lib key (shuffle chunks) (m3, r) ≡ (ok tt, (m4, r')))
        × (is_complete r' ≡ true)
        × (open_in m4.disk dst ≡ some file)
        × (verify_integrity lib r' m4 ≡ (ok true, m5))
  receive_all-shuffled key file src dst m shuffle sendable bytes there opened readable writable
        adds_none loses_none =
      let (w1, offered) = prepare_file_offer-offer_of lib std doc src file m there opened in
      let m1 : Machine lib = record m { ssl = w1 } in
      let ((m2, chunks), sent, v) =
        send_file_chunks-HasSent lib std doc key file src m1 sendable bytes opened in
      let genuine =
        All_of_each (IsGenuine lib key file) (shuffle chunks)
          (λ c h. let (j, here) = adds_none chunks c h in (v.each j c here).genuine) in
      let come = λ (i : ℕ) (h : i < chunk_count (length file)).
        let (c, here) = get_elem?_of_lt chunks i (omega (arith, v.count)) in
        let (j, later) = loses_none chunks c (i, here) in
        subst (λ k. Comes k (shuffle chunks)) (v.each i c here).index
          (Comes-of_stands c (shuffle chunks) j later) in
      let (r, r', m3, m4, m5, made, run, complete, whole, verified) =
        receive_all-assembles lib std doc key file dst m2 (shuffle chunks) sendable
          (ap (λ fs. fs.can_read dst) v.files ∙ readable)
          (subst (λ fs. IsWritable fs dst) (sym v.files) writable) genuine come in
      (
        m1, m2, m3, m4, m5, chunks, r, r', offered, sent, v.count, made, run, complete, whole,
        verified,
      )
