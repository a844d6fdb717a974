-- ===== src/Chunking/Channel.antt =====
-- A receiver of core/src/chunking.cpp behind a channel that may lose, repeat and reorder chunks, and
-- damage what their tags protect. Its caller catches the exceptions and goes on. No tag protects the
-- index of a chunk, so that the channel may not put another index on a chunk that the key opens:
-- Chunking/Reindex says what happens then.
use off_drop.Base.{ℕ, ◌^◌, ◌<◌, ◌≡◌, ◌≢◌, refl, sym, ap, ◌∙◌, subst, ◌⊎◌, inl, inr}
use off_drop.Base.{List, length, All, get_elem?, true, some}
use off_drop.Base.Result.{Error, Result, ok, err, fault}
use off_drop.Protocol.{Bytes, ChunkPayload}
use off_drop.Files.{IsWritable}
use off_drop.OpenSsl.{OpenSsl}
use off_drop.OpenSsl.Documented.{Standard, Documented}
use off_drop.Crypto.Seal.{opened, decrypt_chunk-opened}
use off_drop.Chunking.{FileReceiver, Machine, chunk_count, to_encrypted, receive_chunk, is_complete}
use off_drop.Chunking.{file_receiver}
use off_drop.Chunking.Blocks.{block, IsSendable}
use off_drop.Chunking.Receiving.{IsReceiving, IsGenuine, receive_chunk-Received}
use off_drop.Chunking.Opening.{file_receiver-IsReceiving}
use off_drop.Chunking.Outcomes.{receive_chunk_cases}
use off_drop.Chunking.Assembly.{receive_all, Comes, receive_all-Delivered}
use off_drop.Chunking.Transfer.{IsIntact, is_complete-full, is_complete-IsIntact}

-- If the chunk is in range and the key opens it, its text is the block of its own index: nobody else
-- made the chunk, and its index is the one that it was sent with. Any other chunk of below 2 GB is
-- allowed, whatever its nonce, its ciphertext and its tag.
pub record IsUnforged (std : Standard) (key file : Bytes) (c : ChunkPayload) : Type 0 where
  pub small : length c.ciphertext < 2 ^ 31
  pub authentic :
      (text : Bytes)
      → c.chunk_index < chunk_count (length file)
      → opened std key (to_encrypted c) ≡ ok text
      → text ≡ block file c.chunk_index

-- A chunk arrives, and is taken or refused.
pub data Step (lib : OpenSsl) (std : Standard) (key file : Bytes)
    (s s' : Machine lib × FileReceiver) : Type 0 where
  arrives :
      (c : ChunkPayload) (r : Result (Unit {0}))
      → IsUnforged std key file c
      → receive_chunk lib key c s ≡ (r, s')
      → Step lib std key file s s'

pub data Reach (lib : OpenSsl) (std : Standard) (key file : Bytes) (s : Machine lib × FileReceiver)
    : Machine lib × FileReceiver → Type 0 where
  here : Reach lib std key file s s
  next :
      {t u : Machine lib × FileReceiver}
      → Reach lib std key file s t
      → Step lib std key file t u
      → Reach lib std key file s u

-- A transfer under way to `path`, with the hash of the file.
pub record UnderWay (lib : OpenSsl) (file path sha : Bytes) (s : Machine lib × FileReceiver)
    : Type 0 where
  pub d : Bytes
  pub receiving : IsReceiving file s.0.disk s.1 d
  pub at_path : s.1.output_path ≡ path
  pub hash : s.1.expected_sha256 ≡ sha

-- One call neither leaves the transfer nor is undefined, and it unmarks nothing.
record Kept (lib : OpenSsl) (key file path sha : Bytes) (c : ChunkPayload)
    (s : Machine lib × FileReceiver) : Type 0 where
  result : Result (Unit {0})
  after : Machine lib × FileReceiver
  call : receive_chunk lib key c s ≡ (result, after)
  defined : result ≢ fault
  under_way : UnderWay lib file path sha after

module _ (lib : OpenSsl) (std : Standard) (doc : Documented lib std) (key file : Bytes)
    (sendable : IsSendable file) where
  opened-IsGenuine :
      (c : ChunkPayload) (text : Bytes)
      → IsUnforged std key file c
      → c.chunk_index < chunk_count (length file)
      → opened std key (to_encrypted c) ≡ ok text
      → IsGenuine lib key file c
  opened-IsGenuine c text u h e = record {
    in_range = h;
    opens = λ w.
        let (w', opens) = decrypt_chunk-opened lib std doc key (to_encrypted c) w u.small in
        (w', opens ∙ rw (e, u.authentic text h e) refl);
  }

  -- A call that is refused.
  refused :
      (path sha : Bytes) (c : ChunkPayload) (m : Machine lib) (r : FileReceiver) (w : lib.World)
      (e : Error)
      → UnderWay lib file path sha (m, r)
      → receive_chunk lib key c (m, r) ≡ (err e, (record m { ssl = w }, r))
      → Kept lib key file path sha c (m, r)
  refused path sha c m r w e v call = record {
    result = err e;
    after = (record m { ssl = w }, r);
    call = call;
    defined = λ same. cc same;
    under_way = record { d = v.d; receiving = v.receiving; at_path = v.at_path; hash = v.hash };
  }

  receive_chunk-Kept :
      (path sha : Bytes) (c : ChunkPayload) (m : Machine lib) (r : FileReceiver)
      → IsUnforged std key file c
      → UnderWay lib file path sha (m, r)
      → Kept lib key file path sha c (m, r)
  receive_chunk-Kept path sha c m r u v =
      elim (receive_chunk_cases lib std doc key c m r v.receiving.valid u.small) [
        | inl (_, out) ↦ refused path sha c m r m.ssl _ v out
        | inr (inl (w, e, _, _, call)) ↦ refused path sha c m r w e v call
        | inr (inr (inl (w, _, _, _, _, call))) ↦ refused path sha c m r w _ v call
        | inr (inr (inr (w, text, old, r', h, opens, there, call, marked))) ↦
            taken text (subst (λ n. c.chunk_index < n) v.receiving.total h) opens
      ]
    where
      taken :
          (text : Bytes)
          → c.chunk_index < chunk_count (length file)
          → opened std key (to_encrypted c) ≡ ok text
          → Kept lib key file path sha c (m, r)
      taken text h opens =
          let g = opened-IsGenuine c text u h opens in
          let (m', r', d', done, one) =
            receive_chunk-Received lib key file sendable c m r v.d g v.receiving in
          record {
            result = ok tt;
            after = (m', r');
            call = done;
            defined = λ same. cc same;
            under_way = record {
              d = d';
              receiving = one.receiving;
              at_path = one.offer.output_path ∙ v.at_path;
              hash = one.offer.expected_sha256 ∙ v.hash;
            };
          }

  Step-UnderWay :
      (path sha : Bytes) (s s' : Machine lib × FileReceiver)
      → Step lib std key file s s'
      → UnderWay lib file path sha s
      → UnderWay lib file path sha s'
  Step-UnderWay path sha (m, r) s' (arrives c result u call) v =
      let kept = receive_chunk-Kept path sha c m r u v in
      let same =
        ap (λ (x : Result (Unit {0}) × (Machine lib × FileReceiver)). x.1) (sym kept.call ∙ call) in
      subst (UnderWay lib file path sha) same kept.under_way

  Reach-UnderWay :
      (path sha : Bytes) {s s' : Machine lib × FileReceiver}
      → UnderWay lib file path sha s
      → Reach lib std key file s s'
      → UnderWay lib file path sha s'
  Reach-UnderWay path sha v here = v
  Reach-UnderWay path sha v (next {t} {u} reach step) =
      Step-UnderWay path sha t u step (Reach-UnderWay path sha v reach)

  -- The constructor leaves a transfer under way.
  file_receiver-UnderWay :
      (path sha : Bytes) (m m0 : Machine lib) (r : FileReceiver)
      → m.disk.can_read path ≡ true
      → IsWritable m.disk path
      → file_receiver lib path (length file) (chunk_count (length file)) sha m ≡ (ok r, m0)
      → UnderWay lib file path sha (m0, r)
  file_receiver-UnderWay path sha m m0 r readable writable made =
      let (r1, m1, d, same, v, at, hash, _, _) =
        file_receiver-IsReceiving lib file path sha m sendable readable writable in
      let new : (m1, r1) ≡ (m0, r) = ap back (sym same ∙ made) in
      subst (UnderWay lib file path sha) new
        (record { d = d; receiving = v; at_path = at; hash = hash })
    where
      back : Result FileReceiver × Machine lib → Machine lib × FileReceiver
      back (ok x, n) = (n, x)
      back (err e, n) = (n, r)
      back (fault, n) = (n, r)

  -- A new receiver is behind a channel that loses, repeats and reorders chunks and damages their
  -- nonces, ciphertexts and tags, and its caller goes on after an exception. Each
  -- chunk that arrives has a ciphertext below 2 GB, and if it is in range and the key opens it, its
  -- text is the block of its own index: no chunk is forged, and the index of a chunk that the key
  -- opens, which no tag protects, is never changed on the way. In
  -- every state that is reached then, a receiver that says it is complete has the file's bytes in
  -- the output file, and `verify_integrity` confirms them. The file is below 32 TB, the output path
  -- may be read and takes each write whole, and the library keeps to its manual.
  pub Reach-IsIntact :
      (path : Bytes) (m m0 : Machine lib) (r : FileReceiver) (s : Machine lib × FileReceiver)
      → m.disk.can_read path ≡ true
      → IsWritable m.disk path
      → file_receiver lib path (length file) (chunk_count (length file)) (std.sha256 file) m
        ≡ (ok r, m0)
      → Reach lib std key file (m0, r) s
      → is_complete s.1 ≡ true
      → IsIntact lib file path s
  Reach-IsIntact path m m0 r s readable writable made reach full =
      let start = file_receiver-UnderWay path (std.sha256 file) m m0 r readable writable made in
      let v = Reach-UnderWay path (std.sha256 file) start reach in
      is_complete-IsIntact lib std doc file path sendable s.0 s.1 v.d v.receiving v.at_path v.hash
        full

  -- A new receiver is behind a channel that loses, repeats and reorders chunks and damages their
  -- nonces, ciphertexts and tags. Each
  -- chunk that arrives has a ciphertext below 2 GB, and if it is in range and the key opens it, its
  -- text is the block of its own index: no chunk is forged, and the index of a chunk that the key
  -- opens, which no tag protects, is never changed on the way. In
  -- every state that is reached then, the transfer can still be finished: chunks that the key opens
  -- to their blocks, among them each that is not marked yet, are all accepted, and the file is
  -- intact then. The file is below 32 TB, the output path may be read and takes each write whole,
  -- and the library keeps to its manual.
  pub Reach-receive_all :
      (path : Bytes) (m m0 : Machine lib) (r : FileReceiver) (s : Machine lib × FileReceiver)
      (chunks : List ChunkPayload)
      → m.disk.can_read path ≡ true
      → IsWritable m.disk path
      → file_receiver lib path (length file) (chunk_count (length file)) (std.sha256 file) m
        ≡ (ok r, m0)
      → Reach lib std key file (m0, r) s
      → All (IsGenuine lib key file) chunks
      → ((i : ℕ)
          → i < chunk_count (length file)
          → (get_elem? s.1.received_mask i ≡ some true) ⊎ Comes i chunks)
      → (s' : Machine lib × FileReceiver) × (receive_all lib key chunks s ≡ (ok tt, s'))
        × IsIntact lib file path s'
  Reach-receive_all path m m0 r (m1, r1) chunks readable writable made reach genuine come =
      let start = file_receiver-UnderWay path (std.sha256 file) m m0 r readable writable made in
      let v = Reach-UnderWay path (std.sha256 file) start reach in
      let (m2, r2, d2, run, all) =
        receive_all-Delivered lib key file sendable chunks m1 r1 v.d genuine v.receiving in
      let full =
        (is_complete-full file m2.disk r2 d2 all.receiving).1 (λ i h. all.come i (come i h)) in
      (
        (m2, r2),
        run,
        is_complete-IsIntact lib std doc file path sendable m2 r2 d2 all.receiving
            (all.path ∙ v.at_path) (all.hash ∙ v.hash) full,
      )
