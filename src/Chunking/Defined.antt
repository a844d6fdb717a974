-- ===== src/Chunking/Defined.antt =====
-- core/src/chunking.cpp over any library, whatever its calls return: what is sent comes to an end,
-- and a chunk that arrives is taken and marked, or refused with nothing changed.
use off_drop.Base.{ℕ, zero, suc, ◌+◌, ◌*◌, ◌%◌, ◌^◌, ◌≤◌, ◌≡◌, ◌⊎◌, refl, arith, inl, inr}
use off_drop.Base.{
  [], ◌∷◌, length, take, drop, length-drop, leb, leb→le, leb→lt, Bool-cases, Option-cases,
}
use off_drop.Base.{true, false, some}
use off_drop.Base.Result.{
  Error, Result, ok, err, chunk_index_out_of_range, cannot_open_output, cannot_open_file,
}
use off_drop.Base.Ends.{Ends, returns, throws, continue-Ends, beside-Ends, or_throw-Ends}
use off_drop.Protocol.{Bytes, chunk_size, ChunkPayload}
use off_drop.Files.{open_in, open_in_out, put_content, write_to, read_block}
use off_drop.OpenSsl.{OpenSsl}
use off_drop.Crypto.{decrypt_chunk}
use off_drop.Crypto.Defined.{WritesWithin, encrypt_chunk-Ends, decrypt_chunk-Ends}
use off_drop.Chunking.{
  Machine, FileReceiver, ChunkSink, to_payload, to_encrypted, send_loop, send_file_chunks,
  receive_chunk,
}
use off_drop.Chunking.Mask.{IsCounted, Marked, mark-Marked}
use off_drop.Chunking.Receiving.{receive_chunk-steps}

-- What a chunk that arrives does: it decrypts to a text, what the disk takes of the text is written
-- at the chunk's place, and the chunk is marked, or an exception leaves the files and the receiver
-- as they were.
abbrev pub WholeOrNot : (lib : OpenSsl) → Bytes → ChunkPayload → Machine lib → FileReceiver → Type 0
WholeOrNot lib key c m r =
    ((w' : lib.World) × (text old : Bytes) × (r' : FileReceiver) × (decrypt_chunk lib key
          (to_encrypted c) m.ssl
        ≡ (ok text, w'))
      × (open_in_out m.disk r.output_path ≡ some old)
      × (let new = write_to m.disk r.output_path old (c.chunk_index * chunk_size % 2 ^ 64) text in
          receive_chunk lib key c (m, r)
          ≡ (ok tt, (record { ssl = w'; disk = put_content m.disk r.output_path new }, r')))
      × Marked c.chunk_index r r')
    ⊎ ((e : Error) × (w' : lib.World) × (receive_chunk lib key c (m, r)
          ≡ (err e, (record m { ssl = w' }, r))))

module _ (lib : OpenSsl) (within : WritesWithin lib) where
  module _ {T : Type 0} (key : Bytes) (sink : ChunkSink lib T)
      (sinks : (c : ChunkPayload) (s : Machine lib × T)
        → Ends (λ done t. Unit {0}) (sink c s)) where
    abbrev Loops : ℕ → ℕ → Bytes → Machine lib × T → Type 0
    Loops fuel index u s =
        Ends (λ done t. Unit {0})
          (send_loop lib key sink fuel index (record { unread = u; good = true }) s)

    send_round-Ends :
        (fuel index : ℕ) (u : Bytes) (m : Machine lib) (t : T)
        → ((next : ℕ) (rest : Bytes) (s : Machine lib × T)
            → length rest + 2 ≤ suc fuel
            → Loops (suc fuel) next rest s)
        → length u + 2 ≤ suc (suc fuel)
        → (bs : Bytes) → take chunk_size u ≡ bs
        → Loops (suc (suc fuel)) index u (m, t)
    unfolding send_loop read_block
    send_round-Ends fuel index u m t again h [] e = rw e (returns tt (m, t) tt)
    send_round-Ends fuel index u m t again h (b ∷ bytes) e = rw e (
        continue-Ends
          (beside-Ends (λ w. (record m { ssl = w }, t))
            (encrypt_chunk-Ends lib within key (b ∷ bytes) m.ssl))
          λ enc s1 _. continue-Ends (sinks (to_payload index enc) s1) λ _ s2 _.
            elim (Bool-cases (leb chunk_size (length u))) [
              | inl long ↦ rw long (
                  again ((index + 1) % 2 ^ 32) (drop chunk_size u) s2
                    (omega (arith, leb→le _ _ long, length-drop chunk_size u)))
              | inr short ↦ rw short (returns tt s2 tt)
            ])

    send_loop-Ends :
        (fuel index : ℕ) (u : Bytes) (s : Machine lib × T)
        → length u + 2 ≤ fuel
        → Loops fuel index u s
    send_loop-Ends zero index u s h = absurd (omega arith)
    send_loop-Ends (suc zero) index u s h = absurd (omega arith)
    send_loop-Ends (suc (suc fuel)) index u (m, t) h =
        send_round-Ends fuel index u m t (send_loop-Ends (suc fuel)) h (take chunk_size u) refl

    -- `send_file_chunks` comes to an end for every file, every library and every sink that does: its
    -- rounds suffice, and it returns or throws. A cipher writes no more than it is given.
    pub send_file_chunks-Ends :
        (path : Bytes) (s : Machine lib × T)
        → Ends (λ done t. Unit {0}) (send_file_chunks lib key sink path s)
    unfolding send_file_chunks
    send_file_chunks-Ends path (m, t) =
        continue-Ends (or_throw-Ends cannot_open_file (open_in m.disk path) (m, t))
          λ unread s _. send_loop-Ends (length unread + 2) 0 unread s (omega arith)

  receive_decrypted :
      (key : Bytes) (c : ChunkPayload) (m : Machine lib) (r : FileReceiver)
      (x : Result Bytes × lib.World)
      → IsCounted r
      → leb r.total_chunks c.chunk_index ≡ false
      → decrypt_chunk lib key (to_encrypted c) m.ssl ≡ x
      → Ends (λ text t. Unit {0}) x
      → WholeOrNot lib key c m r
  unfolding receive_chunk
  receive_decrypted key c m r x v here e (throws thrown w) = inr (thrown, w, rw (here, e) refl)
  receive_decrypted key c m r x v here e (returns text w _) =
      elim (Option-cases (open_in_out m.disk r.output_path)) [
        | inl closed ↦ inr (cannot_open_output, w, rw (here, e, closed) refl)
        | inr (old, there) ↦
            let (r', marked, done) = mark-Marked c.chunk_index r v (leb→lt _ _ here) in
            inl (
              w,
              text,
              old,
              r',
              e,
              there,
              receive_chunk-steps lib key c m r r' w text old here e there marked,
              done,
            )
      ]

  -- Whatever the chunk, and whatever the library's calls return, `receive_chunk` either returns,
  -- having written what the disk takes of the decrypted text to the output file at the chunk's
  -- place, changed no other file, and marked the chunk and no other, or throws and leaves the files
  -- and the receiver as they were.
  -- The receiver's mask and count belong together, and a cipher writes no more than it is given.
  pub receive_chunk-WholeOrNot :
      (key : Bytes) (c : ChunkPayload) (m : Machine lib) (r : FileReceiver)
      → IsCounted r
      → WholeOrNot lib key c m r
  receive_chunk-WholeOrNot key c m r v = elim (Bool-cases (leb r.total_chunks c.chunk_index)) [
    | inl out ↦ inr (chunk_index_out_of_range, m.ssl, unfold receive_chunk in rw out refl)
    | inr here ↦
        receive_decrypted key c m r (decrypt_chunk lib key (to_encrypted c) m.ssl) v here refl
          (decrypt_chunk-Ends lib within key (to_encrypted c) m.ssl)
  ]
