-- ===== src/Tests/ChannelExamples.antt =====
-- core/src/crypto.cpp and core/src/chunking.cpp behind a channel that loses chunks, and over any
-- library: at a file of three bytes, over the library of
-- Tests/Toy.antt.
use off_drop.Base.{take, length-take-le}
use off_drop.Base.{
  ℕ, suc, ◌≤◌, ◌≡◌, ◌≢◌, refl, sym, subst, arith, inl, inr, [], ◌∷◌, length, get_elem?,
}
use off_drop.Base.{true, false, none, some, Bool-cases, ◌∙◌, replicate}
use off_drop.Base.Result.{ok}
use off_drop.Base.Ends.{Ends, returns}
use off_drop.Protocol.{Bytes, ChunkPayload}
use off_drop.Files.{bytes_eq, open_in}
use off_drop.OpenSsl.Documented.{CipherView}
use off_drop.Crypto.Defined.{WritesWithin}
use off_drop.Crypto.Seal.{opened}
use off_drop.Chunking.{
  Machine, FileReceiver, ChunkSink, chunk_count, to_encrypted, file_receiver, receive_chunk,
  is_complete, send_file_chunks,
}
use off_drop.Chunking.Assembly.{receive_all}
use off_drop.Chunking.Blocks.{block}
use off_drop.Chunking.Channel.{
  Reach, arrives, here, next, IsUnforged, Reach-IsIntact, Reach-receive_all,
}
use off_drop.Chunking.Defined.{WholeOrNot, send_file_chunks-Ends, receive_chunk-WholeOrNot}
use off_drop.Chunking.Opening.{file_receiver-IsReceiving}
use off_drop.Chunking.Receiving.{IsReceiving, Received, receive_chunk-Received}
use off_drop.Chunking.Transfer.{IsIntact, is_complete-full}
use off_drop.Tests.Toy.{toy_ssl, toy_standard, toy-Documented, toy_final, toy_mac}
use off_drop.Tests.FileData.{
  writable, key, source_path, output_path, three_bytes, machine, sendable,
}
use off_drop.Tests.FileExamples.{
  only_chunk, only_chunk-IsGenuine, every_index, output_machine, receiver, receiver-IsCounted,
}

-- The toy library writes as much as it reads, and nothing at the end.
toy_final_last : (c c' : CipherView) (out : Bytes) → toy_final c ≡ some (out, c') → out ≡ []
toy_final_last c c' out e = elim (Bool-cases (bytes_eq c.expected_tag (toy_mac c.ciphertext))) [
  | inl same ↦ cc (sym (toy_final_true same) ∙ e)
  | inr other ↦ absurd (cc (sym (toy_final_false other) ∙ e))
]
  where
    toy_final_true :
        bytes_eq c.expected_tag (toy_mac c.ciphertext) ≡ true → toy_final c ≡ some ([], c)
    toy_final_true same = rw same refl

    toy_final_false : bytes_eq c.expected_tag (toy_mac c.ciphertext) ≡ false → toy_final c ≡ none
    toy_final_false other = rw other refl

no_more : (text out : Bytes) → text ≡ out → length out ≤ length text
no_more text out e = subst (λ (bytes : Bytes). length bytes ≤ length text) e (omega arith)

front_only : (n : ℕ) (text out : Bytes) → take n text ≡ out → length out ≤ length text
front_only n text out e =
    subst (λ (bytes : Bytes). length bytes ≤ length text) e (length-take-le n text).1

pub toy-WritesWithin : WritesWithin toy_ssl
toy-WritesWithin = record {
  encrypt_within = λ c c' text out n e. front_only n text out (cc e);
  decrypt_within = λ c c' text out n e. no_more text out (cc e);
  encrypt_last = λ c c' out e. cc e;
  decrypt_last = toy_final_last;
}

abbrev count_chunks : ChunkSink toy_ssl ℕ
count_chunks c (m, n) = (ok tt, (m, suc n))

send_file_chunks-Ends_example :
    Ends (λ done t. Unit {0}) (send_file_chunks toy_ssl key count_chunks source_path (machine, 0))
send_file_chunks-Ends_example =
    send_file_chunks-Ends toy_ssl toy-WritesWithin key count_chunks
      (λ c (m, n). returns tt (m, suc n) tt) source_path (machine, 0)

receive_chunk-WholeOrNot_example : WholeOrNot toy_ssl key only_chunk output_machine receiver
receive_chunk-WholeOrNot_example =
    receive_chunk-WholeOrNot toy_ssl toy-WritesWithin key only_chunk output_machine receiver
      receiver-IsCounted

only_chunk_opens : opened toy_standard key (to_encrypted only_chunk) ≡ ok (block three_bytes 0)
unfolding opened bytes_eq block
only_chunk_opens = refl

-- The chunk with a damaged tag is refused, and then the chunk itself is taken.
abbrev damaged : ChunkPayload
damaged = record only_chunk { tag = replicate 16 4 }

damaged-IsUnforged : IsUnforged toy_standard key three_bytes damaged
unfolding opened bytes_eq
damaged-IsUnforged = record { small = omega arith; authentic = λ text h e. absurd (cc e) }

only_chunk-IsUnforged : IsUnforged toy_standard key three_bytes only_chunk
only_chunk-IsUnforged = record {
  small = omega arith;
  authentic = λ text h e. cc (e, only_chunk_opens);
}

-- The new receiver, with its machine and the output file.
abbrev opened_receiver :
    (r : FileReceiver) × (m' : Machine toy_ssl) × (d : Bytes) × (file_receiver toy_ssl output_path 3
        (chunk_count 3)
        three_bytes
        machine
      ≡ (ok r, m'))
    × IsReceiving three_bytes m'.disk r d
    × (r.output_path ≡ output_path)
    × (r.expected_sha256 ≡ three_bytes)
    × ((i : ℕ) → get_elem? r.received_mask i ≢ some true)
    × ((other : Bytes) → output_path ≢ other → open_in m'.disk other ≡ open_in machine.disk other)
opened_receiver =
    file_receiver-IsReceiving toy_ssl three_bytes output_path three_bytes machine sendable refl
      writable

abbrev opened_state : Machine toy_ssl × FileReceiver
opened_state = (opened_receiver.1, opened_receiver.0)

abbrev taken :
    (m' : Machine toy_ssl) × (r' : FileReceiver) × (d' : Bytes) × (receive_chunk toy_ssl key
        only_chunk opened_state
      ≡ (ok tt, (m', r')))
    × Received toy_ssl three_bytes 0 opened_state.0 m' opened_state.1 r' d'
taken =
    receive_chunk-Received toy_ssl key three_bytes sendable only_chunk opened_state.0 opened_state.1
      opened_receiver.2 only_chunk-IsGenuine opened_receiver.4

opened_then_taken : Reach toy_ssl toy_standard key three_bytes opened_state (taken.0, taken.1)
opened_then_taken = next here (arrives only_chunk (ok tt) only_chunk-IsUnforged taken.3)

taken-is_complete : is_complete taken.1 ≡ true
unfolding chunk_count
taken-is_complete =
    let t = taken.4 in
    (is_complete-full three_bytes taken.0.disk taken.1 taken.2 t.receiving).1
      λ i h. subst (λ j. get_elem? taken.1.received_mask j ≡ some true) (omega arith) t.here

Reach-IsIntact_example : IsIntact toy_ssl three_bytes output_path (taken.0, taken.1)
Reach-IsIntact_example =
    Reach-IsIntact toy_ssl toy_standard toy-Documented key three_bytes sendable output_path machine
      opened_state.0 opened_state.1 (taken.0, taken.1) refl writable opened_receiver.3
      opened_then_taken taken-is_complete

-- A damaged chunk has come, and was refused.
abbrev refused : Machine toy_ssl × FileReceiver
refused = (receive_chunk toy_ssl key damaged opened_state).1

Reach-receive_all_example :
    (s' : Machine toy_ssl × FileReceiver) × (receive_all toy_ssl key (only_chunk ∷ []) refused
      ≡ (ok tt, s'))
    × IsIntact toy_ssl three_bytes output_path s'
Reach-receive_all_example =
    Reach-receive_all toy_ssl toy_standard toy-Documented key three_bytes sendable output_path
      machine opened_state.0 opened_state.1 refused (only_chunk ∷ []) refl writable
      opened_receiver.3 (next here (arrives damaged _ damaged-IsUnforged refl))
      (only_chunk-IsGenuine, tt) λ i h. inr (every_index i h)
