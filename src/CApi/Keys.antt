-- ===== src/CApi/Keys.antt =====
-- `airdrop_generate_keypair` and `airdrop_derive_session_key` of core/src/c_api.cpp, over a library
-- that keeps to its manuals.
use off_drop.Base.{ℕ, ◌≤◌, ◌≡◌, ◌≢◌, refl, sym, ◌∙◌, arith, List, [], ◌∷◌, length, All, some}
use off_drop.Base.Result.{ok}
use off_drop.Protocol.{Bytes}
use off_drop.OpenSsl.{OpenSsl}
use off_drop.KeyAgreement.{PkeyCalls, KeyPair}
use off_drop.KeyAgreement.Documented.{KeyStandard, KeyDocumented}
use off_drop.KeyAgreement.Agreement.{
  IsPair, generate_key_pair-IsPair, derive_session_key-IsPair, session_of, session_of_swap,
}
use native.Mathlib.Decide.{ℕ_discrete}
use off_drop.Memory.{Memory, Malloc, write, load, load_string}
use off_drop.Memory.Writes.{write_self, write_other, load_whole, load_string_kept, copy_to_whole}
use off_drop.CApi.{
  airdrop_ok, caught, guarded, airdrop_generate_keypair, airdrop_derive_session_key,
}

-- A block of the caller's with 32 bytes.
abbrev pub Room : Memory → ℕ → Type 0
Room m a = (old : Bytes) × (m.blocks a ≡ some old) × (length old ≡ 32)

-- The numbers are different.
abbrev pub Apart : List ℕ → Type 0
Apart [] = Unit {0}
Apart (a ∷ rest) = All (λ b. a ≢ b) rest × Apart rest

write-Room :
    (m : Memory) (a b : ℕ) (bytes : Bytes)
    → length bytes ≡ 32
    → Room m b
    → Room (record m { blocks = write m.blocks a (some bytes) }) b
write-Room m a b bytes size room = elim (ℕ_discrete a b) [
  | yes same ↦ (bytes, rw (← same) (write_self m.blocks a (some bytes)), size)
  | no ne ↦ (room.0, write_other m.blocks a b (some bytes) ne ∙ room.1, room.2)
]

-- The memory with a pair of keys in two blocks.
abbrev pub with_pair : Memory → ℕ → ℕ → KeyPair → Memory
with_pair m public private kp = record m {
  blocks = write (write m.blocks public (some kp.public_key)) private (some kp.private_key);
}

module _ (lib : OpenSsl) (malloc : Malloc) (pkey : PkeyCalls lib.World) (std : KeyStandard)
    (doc : KeyDocumented pkey std) where
  pub generate_call :
      (m : Memory) (public private : ℕ) (w : lib.World)
      → Room m public
      → Room m private
      → (kp : KeyPair) × (w' : lib.World) × IsPair pkey std doc kp
        × (airdrop_generate_keypair lib malloc pkey (some public) (some private) (w, m)
            ≡ (ok airdrop_ok, (w', with_pair m public private kp)))
  unfolding airdrop_generate_keypair guarded caught
  generate_call m public private w (old, there, size) room =
      let (kp, w', made, v) = generate_key_pair-IsPair pkey std doc w in
      let wide : length kp.public_key ≡ 32 = rw v.public (std.length-public_of kp.private_key) in
      let m1 : Memory = record m { blocks = write m.blocks public (some kp.public_key) } in
      let (old2, there2, size2) = write-Room m public private kp.public_key wide room in
      let first = copy_to_whole m public kp.public_key old there (size ∙ sym wide) in
      let second =
        copy_to_whole m1 private kp.private_key old2 there2 (size2 ∙ sym v.private_size) in
      (kp, w', v, rw (made, first, second) refl)

  pub derive_call :
      (m : Memory) (mine yours : KeyPair) (private public info_at session_at : ℕ) (info : Bytes)
      (w : lib.World)
      → IsPair pkey std doc mine
      → IsPair pkey std doc yours
      → m.blocks private ≡ some mine.private_key
      → m.blocks public ≡ some yours.public_key
      → load_string (some info_at) m ≡ ok info
      → length info ≤ 1024
      → Room m session_at
      → (w' : lib.World) × (airdrop_derive_session_key lib malloc pkey
            (some private)
            (some public)
            (some info_at)
            (some session_at)
            (w, m)
          ≡ (
            ok airdrop_ok,
            (
              w',
              record m {
                blocks = write m.blocks session_at (some (session_of pkey std doc mine yours info));
              },
            ),
          ))
  unfolding airdrop_derive_session_key guarded caught
  derive_call m mine yours private public info_at session_at info w v u has_private has_public
        has_info short (old, there, size) =
      let (w', derived) = derive_session_key-IsPair pkey std doc mine yours info w v u short in
      let wide : length yours.public_key ≡ 32 =
        rw u.public (std.length-public_of yours.private_key) in
      let priv_read : load (some private) 32 m ≡ ok mine.private_key =
        rw v.private_size at (load_whole m private mine.private_key has_private) in
      let pub_read : load (some public) 32 m ≡ ok yours.public_key =
        rw wide at (load_whole m public yours.public_key has_public) in
      let session = session_of pkey std doc mine yours info in
      let copied =
        copy_to_whole m session_at session old there (size ∙ sym (std.length-hkdf _ _ _)) in
      (w', rw (priv_read, pub_read, has_info, derived, copied) refl)

  with_pair-Room :
      (m : Memory) (public private b : ℕ) (kp : KeyPair)
      → IsPair pkey std doc kp
      → Room m b
      → Room (with_pair m public private kp) b
  with_pair-Room m public private b kp v room =
      let wide : length kp.public_key ≡ 32 = rw v.public (std.length-public_of kp.private_key) in
      write-Room (record m { blocks = write m.blocks public (some kp.public_key) }) private b
        kp.private_key v.private_size (write-Room m public b kp.public_key wide room)

  -- Two callers let the C functions make their pairs of keys, and each then lets them derive a
  -- session key from its private key, the other's public key and the same text: the four calls
  -- return AIRDROP_OK, and the two blocks for the session keys hold the same 32 bytes. The library
  -- keeps to its manuals, the six blocks have 32 bytes each, they and the block of the text are
  -- different, and the text has up to 1024 bytes before its zero.
  pub airdrop_derive_session_key_agrees :
      (m : Memory)
      (alice_public alice_private bob_public bob_private alice_session bob_session info_at : ℕ)
      → (info : Bytes) (w : lib.World)
      → All (Room m) (
          alice_public ∷ alice_private ∷ bob_public ∷ bob_private ∷ alice_session ∷ bob_session
          ∷ [])
      → Apart (
          alice_public ∷ alice_private ∷ bob_public ∷ bob_private ∷ alice_session ∷ bob_session
          ∷ info_at ∷ [])
      → load_string (some info_at) m ≡ ok info
      → length info ≤ 1024
      → (w1 w2 w3 w4 : lib.World) × (m1 m2 m3 m4 : Memory) × (session : Bytes)
        × (airdrop_generate_keypair lib malloc pkey (some alice_public) (some alice_private) (w, m)
            ≡ (ok airdrop_ok, (w1, m1)))
        × (airdrop_generate_keypair lib malloc pkey (some bob_public) (some bob_private) (w1, m1)
            ≡ (ok airdrop_ok, (w2, m2)))
        × (airdrop_derive_session_key lib malloc pkey
              (some alice_private)
              (some bob_public)
              (some info_at)
              (some alice_session)
              (w2, m2)
            ≡ (ok airdrop_ok, (w3, m3)))
        × (airdrop_derive_session_key lib malloc pkey
              (some bob_private)
              (some alice_public)
              (some info_at)
              (some bob_session)
              (w3, m3)
            ≡ (ok airdrop_ok, (w4, m4)))
        × (m4.blocks alice_session ≡ some session)
        × (m4.blocks bob_session ≡ some session)
        × (length session ≡ 32)
  airdrop_derive_session_key_agrees m ap av bp bv sa sb i info w rooms apart has_info short =
      let (rap, (rav, (rbp, (rbv, (rsa, (rsb, _)))))) = rooms in
      let (
        (ap_av, (ap_bp, (ap_bv, (ap_sa, (ap_sb, (ap_i, _)))))),
        (
          (av_bp, (av_bv, (av_sa, (av_sb, (av_i, _))))),
          (
            (bp_bv, (bp_sa, (bp_sb, (bp_i, _)))),
            ((bv_sa, (bv_sb, (bv_i, _))), ((sa_sb, (sa_i, _)), ((sb_i, _), _))),
          ),
        ),
      ) =
        apart in
      let (alice, w1, v, made1) = generate_call m ap av w rap rav in
      let m1 = with_pair m ap av alice in
      let (bob, w2, u, made2) =
        generate_call m1 bp bv w1 (with_pair-Room m ap av bp alice v rbp)
          (with_pair-Room m ap av bv alice v rbv) in
      let m2 = with_pair m1 bp bv bob in
      let room2 : (b : ℕ) → Room m b → Room m2 b =
        λ b r. with_pair-Room m1 bp bv b bob u (with_pair-Room m ap av b alice v r) in
      let session = session_of pkey std doc alice bob info in
      let alice_private2 : m2.blocks av ≡ some alice.private_key = unfold write in ground arith in
      let bob_public2 : m2.blocks bp ≡ some bob.public_key = unfold write in ground arith in
      let info2 = load_string_kept m m2 i (unfold write in ground arith) ∙ has_info in
      let (w3, mine) =
        derive_call m2 alice bob av bp i sa info w2 v u alice_private2 bob_public2 info2 short
          (room2 sa rsa) in
      let m3 : Memory = record m2 { blocks = write m2.blocks sa (some session) } in
      let bob_private3 : m3.blocks bv ≡ some bob.private_key = unfold write in ground arith in
      let alice_public3 : m3.blocks ap ≡ some alice.public_key = unfold write in ground arith in
      let info3 = load_string_kept m2 m3 i (unfold write in ground arith) ∙ info2 in
      let room3 = write-Room m2 sa sb session (std.length-hkdf _ _ _) (room2 sb rsb) in
      let (w4, yours) =
        derive_call m3 bob alice bv ap i sb info w3 u v bob_private3 alice_public3 info3 short
          room3 in
      let m4 : Memory = record m3 { blocks = write m3.blocks sb (some session) } in
      let same = session_of_swap pkey std doc alice bob info in
      (
        w1,
        w2,
        w3,
        w4,
        m1,
        m2,
        m3,
        m4,
        session,
        made1,
        made2,
        mine,
        rw same at yours,
        write_other m3.blocks sb sa (some session) (λ e. sa_sb (sym e))
            ∙ write_self m2.blocks sa (some session),
        write_self m3.blocks sb (some session),
        std.length-hkdf _ _ _,
      )
