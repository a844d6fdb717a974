-- ===== src/Chunking/Sending.antt =====
-- The sending side of core/src/chunking.cpp: `SendFileChunks` hands each block of the file to its
-- sink, once and in order.
use off_drop.Base.{ℕ, zero, suc, ◌+◌, ◌*◌, ◌%◌, ◌^◌, ◌≤◌, ◌<◌, ◌≡◌, refl, sym, ap, ◌∙◌, subst}
use off_drop.Base.{arith, [], ◌∷◌, length, take, drop, All, All-take, All-drop, some}
use off_drop.Base.{Bool, true, false, leb, leb→le, leb→lt, Bool-cases, inl, inr, length-drop}
use off_drop.Base.{length-take-le, drop-drop}
use off_drop.Base.Result.{ok}
use off_drop.Protocol.{Bytes, IsByte, chunk_size, ChunkPayload}
use off_drop.Protocol.Payloads.{IsChunk}
use off_drop.Files.{Stream, open_in, read_block}
use off_drop.OpenSsl.{OpenSsl}
use off_drop.OpenSsl.Documented.{Standard, Documented}
use off_drop.Crypto.{EncryptedChunk, encrypt_chunk}
use off_drop.Crypto.Seal.{IsSealed, encrypt_chunk-IsSealed}
use off_drop.Base.Action.{Action}
use off_drop.Chunking.{Machine, ChunkSink, chunk_count, to_payload, send_loop, send_file_chunks}
use off_drop.Chunking.Blocks.{
  block, IsSendable, chunk_count-div, chunk_count-lt, length-block-le, length-take-lt,
}
use off_drop.Chunking.Receiving.{IsGenuine}

-- The chunk that goes out for the block `i`.
pub record IsSent (lib : OpenSsl) (key file : Bytes) (i : ℕ) (c : ChunkPayload) : Type 0 where
  pub index : c.chunk_index ≡ i
  pub genuine : IsGenuine lib key file c
  pub wire : IsChunk c
  pub short : length c.nonce + length c.ciphertext + length c.tag ≤ chunk_size + 28
  pub size : length c.nonce + length c.ciphertext + length c.tag ≡ length (block file i) + 28

-- One round of the loop: no byte is left, the stream has ended, or a block goes out.
module _ (lib : OpenSsl) {T : Type 0} (key : Bytes) (sink : ChunkSink lib T) (fuel i : ℕ)
    (u : Bytes) where
  abbrev round : Bool → Action (Machine lib × T) (Unit {0})
  round good = send_loop lib key sink (suc fuel) i (record { unread = u; good = good })

  round_empty : (s : Machine lib × T) → take chunk_size u ≡ [] → round true s ≡ (ok tt, s)
  unfolding send_loop read_block
  round_empty s e = rw e

  round_ended : (s : Machine lib × T) → round false s ≡ (ok tt, s)
  unfolding send_loop
  round_ended s = refl

  round_block :
      (m : Machine lib) (t : T) (s' : Machine lib × T) (b : ℕ) (bytes : Bytes)
      (enc : EncryptedChunk) (w' : lib.World)
      → take chunk_size u ≡ b ∷ bytes
      → encrypt_chunk lib key (b ∷ bytes) m.ssl ≡ (ok enc, w')
      → sink (to_payload i enc) (record m { ssl = w' }, t) ≡ (ok tt, s')
      → round true (m, t)
        ≡ send_loop lib key sink fuel
            ((i + 1) % 2 ^ 32)
            (record { unread = drop chunk_size u; good = leb chunk_size (length u) })
            s'
  unfolding send_loop read_block
  round_block m t s' b bytes enc w' e encrypted sunk = rw (e, encrypted, sunk)

module _ (lib : OpenSsl) (std : Standard) (doc : Documented lib std) (key file : Bytes)
    (sendable : IsSendable file) (bytes : All IsByte file) where
  -- The chunk of a block is sent as it should be.
  payload-IsSent :
      (i : ℕ) (enc : EncryptedChunk)
      → i < chunk_count (length file)
      → IsSealed lib key (block file i) enc
      → IsSent lib key file i (to_payload i enc)
  payload-IsSent i enc h s =
      let few = chunk_count-lt (length file) sendable in
      let small = length-block-le file i in
      record {
        index = refl;
        genuine = record { in_range = h; opens = s.opens };
        wire = (
          omega arith,
          (
            (s.nonce_bytes, omega (arith, s.nonce_size)),
            (
              (s.ciphertext_bytes, omega (arith, s.ciphertext_size)),
              (s.tag_bytes, omega (arith, s.tag_size)),
            ),
          ),
        );
        short = omega (arith, s.nonce_size, s.ciphertext_size, s.tag_size);
        size = omega (arith, s.nonce_size, s.ciphertext_size, s.tag_size);
      }

  block-IsByte : (i : ℕ) → All IsByte (block file i)
  unfolding block
  block-IsByte i =
      All-take IsByte chunk_size (drop (i * chunk_size) file)
        (All-drop IsByte (i * chunk_size) file bytes)

  module _ {T : Type 0} (sink : ChunkSink lib T) (P : ℕ → Machine lib × T → Type 0)
      (quiet : (i : ℕ) (m : Machine lib) (t : T) (w : lib.World)
        → P i (m, t)
        → P i (record m { ssl = w }, t))
      (takes : (i : ℕ) (c : ChunkPayload) (s : Machine lib × T)
        → IsSent lib key file i c
        → P i s
        → (s' : Machine lib × T) × (sink c s ≡ (ok tt, s')) × P (suc i) s') where
    abbrev Ends : ℕ → ℕ → Bytes → Machine lib × T → Type 0
    Ends fuel i u s =
        (s' : Machine lib × T) × (send_loop lib key sink fuel i (record { unread = u; good = true })
            s
          ≡ (ok tt, s'))
        × P (chunk_count (length file)) s'

    -- What the later rounds do.
    abbrev Again : ℕ → Type 0
    Again fuel =
        (i : ℕ) (u : Bytes) (s : Machine lib × T)
        → u ≡ drop (i * chunk_size) file
        → i * chunk_size ≤ length file
        → length u + 2 ≤ suc fuel
        → P i s
        → Ends (suc fuel) i u s

    -- The rounds behind the block `i`: either they go on, or it was the last one.
    send_loop-behind :
        (fuel i : ℕ) (u : Bytes) (next : Machine lib × T)
        → Again fuel
        → u ≡ drop (i * chunk_size) file
        → i * chunk_size < length file
        → length u + 2 ≤ suc (suc fuel)
        → P (suc i) next
        → let behind : Stream = record {
          unread = drop chunk_size u;
          good = leb chunk_size (length u);
        } in
          (s' : Machine lib × T) × (send_loop lib key sink (suc fuel) ((i + 1) % 2 ^ 32) behind next
            ≡ (ok tt, s'))
          × P (chunk_count (length file)) s'
    send_loop-behind fuel i u next again e here h p =
        let left = ap length e ∙ length-drop (i * chunk_size) file in
        let div = chunk_count-div (length file) sendable in
        elim (Bool-cases (leb chunk_size (length u))) [
          | inl whole ↦
              let long = leb→le chunk_size (length u) whole in
              let index : (i + 1) % 2 ^ 32 ≡ suc i = omega (arith, here, sendable) in
              let behind : drop chunk_size u ≡ drop (suc i * chunk_size) file =
                ap (drop chunk_size) e
                ∙ drop-drop chunk_size (i * chunk_size) file
                ∙ ap (λ (k : ℕ). drop k file) (omega arith) in
              rw (index, whole)
                (again (suc i) (drop chunk_size u) next behind (omega (arith, left))
                  (omega (arith, length-drop chunk_size u)) p)
          | inr part ↦
              let short = leb→lt chunk_size (length u) part in
              let last : suc i ≡ chunk_count (length file) = omega (arith, left, div) in
              (
                next,
                rw part (round_ended lib key sink fuel _ (drop chunk_size u) next),
                subst (λ k. P k next) last p,
              )
        ]

    -- One round, before the rounds that `again` takes.
    send_loop-round :
        (fuel i : ℕ) (u : Bytes) (m : Machine lib) (t : T)
        → Again fuel
        → u ≡ drop (i * chunk_size) file
        → i * chunk_size ≤ length file
        → length u + 2 ≤ suc (suc fuel)
        → P i (m, t)
        → (bs : Bytes) → take chunk_size u ≡ bs
        → Ends (suc (suc fuel)) i u (m, t)
    send_loop-round fuel i u m t again e start h p [] none_left =
        let nothing =
          length-take-lt chunk_size u 0 (omega arith) (omega (arith, ap length none_left)) in
        let left = ap length e ∙ length-drop (i * chunk_size) file in
        let last : i ≡ chunk_count (length file) =
          omega (arith, left, nothing, chunk_count-div (length file) sendable) in
        (
          (m, t),
          round_empty lib key sink (suc fuel) i u (m, t) none_left,
          subst (λ n. P n (m, t)) last p,
        )
    send_loop-round fuel i u m t again e start h p (b ∷ bs) taken =
        let left = ap length e ∙ length-drop (i * chunk_size) file in
        let some_left = ap length taken in
        let lens = length-take-le chunk_size u in
        let div = chunk_count-div (length file) sendable in
        let here : i < chunk_count (length file) = omega (arith, left, some_left, lens, div) in
        let text : b ∷ bs ≡ block file i = sym taken ∙ unfold block in ap (take chunk_size) e in
        let text_bytes = subst (All IsByte) (sym text) (block-IsByte i) in
        let (enc, w', encrypted, s) =
          encrypt_chunk-IsSealed lib std doc key (b ∷ bs) m.ssl (omega (arith, some_left, lens))
            text_bytes in
        let s' = subst (λ (x : Bytes). IsSealed lib key x enc) text s in
        let n : Machine lib = record m { ssl = w' } in
        let (next, sunk, p') =
          takes i (to_payload i enc) (n, t) (payload-IsSent i enc here s') (quiet i m t w' p) in
        let done =
          round_block lib key sink (suc fuel) i u m t next b bs enc w' taken encrypted sunk in
        let (end, ended, q) =
          send_loop-behind fuel i u next again e (omega (arith, left, some_left, lens)) h p' in
        (end, done ∙ ended, q)

    -- From the block `i` on, with enough rounds, the loop ends behind the last block.
    send_loop-Ends :
        (fuel i : ℕ) (u : Bytes) (s : Machine lib × T)
        → u ≡ drop (i * chunk_size) file
        → i * chunk_size ≤ length file
        → length u + 2 ≤ fuel
        → P i s
        → Ends fuel i u s
    send_loop-Ends zero i u s e start h p = absurd (omega arith)
    send_loop-Ends (suc zero) i u s e start h p = absurd (omega arith)
    send_loop-Ends (suc (suc fuel)) i u (m, t) e start h p =
        send_loop-round fuel i u m t (send_loop-Ends (suc fuel)) e start h p (take chunk_size u)
          refl

    -- With a sink that takes each chunk of the file, from each state that its invariant allows,
    -- `send_file_chunks` returns, and the invariant holds for the number of chunks.
    pub send_file_chunks_ends :
        (path : Bytes) (m : Machine lib) (t : T)
        → open_in m.disk path ≡ some file
        → P 0 (m, t)
        → (s' : Machine lib × T) × (send_file_chunks lib key sink path (m, t) ≡ (ok tt, s'))
          × P (chunk_count (length file)) s'
    unfolding send_file_chunks
    send_file_chunks_ends path m t opened p =
        let none_gone : 0 * chunk_size ≡ 0 = omega arith in
        let (s', done, q) =
          send_loop-Ends (length file + 2) 0 file (m, t)
            (ap (λ (k : ℕ). drop k file) (sym none_gone)) (omega arith) (omega arith) p in
        (s', rw opened done, q)
