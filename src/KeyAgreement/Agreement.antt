-- ===== src/KeyAgreement/Agreement.antt =====
-- The two ends of core/src/crypto.cpp agree on a session key, over a library that keeps to its
-- manual.
use off_drop.Base.{◌-◌, ◌%◌, ◌^◌, ◌≤◌, ◌≡◌, ◌≢◌, refl, ap, ◌∙◌, arith, [], length, replicate}
use off_drop.Base.{le→ltb, append-nil}
use off_drop.Base.Result.{ok}
use off_drop.Protocol.{Bytes}
use off_drop.KeyAgreement.{PkeyCalls, KeyPair, into_array, shared_secret, through_hkdf}
use off_drop.KeyAgreement.{generate_key_pair, derive_session_key}
use off_drop.KeyAgreement.Documented.{KeyStandard, KeyDocumented, exchange}

into_array-full : (out : Bytes) → length out ≡ 32 → into_array out ≡ ok out
unfolding into_array
into_array-full out h =
    let no_room : 32 - length out ≡ 0 = omega arith in
    rw (le→ltb 32 (length out) (omega arith), no_room) (ap ok (append-nil out))

module _ {World : Type 0} (lib : PkeyCalls World) (std : KeyStandard)
    (doc : KeyDocumented lib std) where
  shared_secret-x25519 :
      (a p : Bytes) (w : World)
      → length a ≡ 32
      → length p ≡ 32
      → std.x25519 a p ≢ replicate 32 0
      → (w' : World) × (shared_secret lib a p w ≡ (ok (std.x25519 a p), w'))
  unfolding shared_secret
  shared_secret-x25519 a p w ha hp ne =
      let (mine, w1, made1, is_mine) = doc.new_raw_private_key_lem a w ha in
      let (peer, w2, made2, is_peer) = doc.new_raw_public_key_lem p w1 hp in
      let (c, w3, made3, v) = doc.ctx_new_lem mine w2 in
      let (c1, started, v1) = doc.derive_init_lem c (doc.private_of mine) v in
      let (c2, set_peer, v2) = doc.derive_set_peer_lem c1 peer (doc.private_of mine) v1 in
      let given =
        v2
        ∙ ap (λ (t : Bytes). exchange t (doc.public_part peer)) is_mine
        ∙ ap (exchange a) is_peer in
      let derived = doc.derive_exchange_lem c2 a p given ne in
      let whole = into_array-full (std.x25519 a p) (std.length-x25519 a p) in
      (w3, rw (made1, made2, made3, started, set_peer, derived, whole) refl)

  through_hkdf-hkdf :
      (secret info : Bytes) (w : World)
      → length secret ≡ 32
      → length info ≤ 1024
      → (w' : World) × (through_hkdf lib secret info w ≡ (ok (std.hkdf [] secret info), w'))
  unfolding through_hkdf
  through_hkdf-hkdf secret info w hs hi =
      let (c, w1, made, v) = doc.ctx_new_hkdf_lem w in
      let (c1, started, v1) = doc.derive_init_hkdf_lem c v in
      let (c2, with_md, v2) = doc.set_hkdf_md_lem c1 v1 in
      let (c3, with_salt, v3) = doc.set_hkdf_salt_lem c2 [] [] [] [] v2 in
      let (c4, with_key, v4) = doc.set_hkdf_key_lem c3 secret [] [] [] hs v3 in
      let (c5, with_info, v5) = doc.add_hkdf_info_lem c4 info [] secret [] refl hi v4 in
      let derived = doc.derive_hkdf_lem c5 [] secret info (omega (arith, hs)) v5 in
      let key_len : length secret % 2 ^ 32 ≡ 32 = omega arith in
      let info_len : length info % 2 ^ 32 ≡ length info = omega arith in
      let whole = into_array-full (std.hkdf [] secret info) (std.length-hkdf [] secret info) in
      (
        w1,
        rw
            (
              made, started, with_md, with_salt, key_len, with_key, info_len, with_info, derived,
              whole,
            )
            refl,
      )

  -- Over a library that keeps to its manual, `derive_session_key` of two keys of 32 bytes whose
  -- shared secret is not zero, and an info up to 1024 bytes, is HKDF of that secret and the info,
  -- with no salt.
  pub derive_session_key-hkdf :
      (a p info : Bytes) (w : World)
      → length a ≡ 32
      → length p ≡ 32
      → std.x25519 a p ≢ replicate 32 0
      → length info ≤ 1024
      → (w' : World) × (derive_session_key lib a p info w
          ≡ (ok (std.hkdf [] (std.x25519 a p) info), w'))
  unfolding derive_session_key
  derive_session_key-hkdf a p info w ha hp ne hi =
      let (w1, shared) = shared_secret-x25519 a p w ha hp ne in
      let (w2, derived) = through_hkdf-hkdf (std.x25519 a p) info w1 (std.length-x25519 a p) hi in
      (w2, rw (shared, derived) refl)

  -- A pair of keys as the library makes it.
  pub record IsPair (kp : KeyPair) : Type 0 where
    pub private_size : length kp.private_key ≡ 32
    pub public : kp.public_key ≡ std.public_of kp.private_key

  pub generate_key_pair-IsPair :
      (w : World)
      → (kp : KeyPair) × (w' : World) × (generate_key_pair lib w ≡ (ok kp, w')) × IsPair kp
  unfolding generate_key_pair
  generate_key_pair-IsPair w =
      let (c, w1, made) = doc.ctx_new_x25519_lem w in
      let (c1, started) = doc.keygen_init_lem c in
      let (k, w2, drawn, long, public) = doc.keygen_lem c c1 w1 started in
      let wide = ap length public ∙ std.length-public_of (doc.private_of k) in
      let got_public = doc.get_raw_public_key_lem k wide in
      let got_private = doc.get_raw_private_key_lem k long in
      (
        record { public_key = doc.public_part k; private_key = doc.private_of k },
        w2,
        rw
            (
              made,
              started,
              drawn,
              got_public,
              into_array-full _ wide,
              got_private,
              into_array-full _ long,
            )
            refl,
        record { private_size = long; public = public },
      )

  -- The session key of two pairs.
  abbrev pub session_of : KeyPair → KeyPair → Bytes → Bytes
  session_of mine yours info =
      std.hkdf [] (std.x25519 mine.private_key (std.public_of yours.private_key)) info

  pub session_of_swap :
      (alice bob : KeyPair) (info : Bytes) → session_of bob alice info ≡ session_of alice bob info
  session_of_swap alice bob info =
      ap (λ (secret : Bytes). std.hkdf [] secret info)
        (std.x25519_agrees bob.private_key alice.private_key)

  pub derive_session_key-IsPair :
      (mine yours : KeyPair) (info : Bytes) (w : World)
      → IsPair mine
      → IsPair yours
      → length info ≤ 1024
      → (w' : World) × (derive_session_key lib mine.private_key yours.public_key info w
          ≡ (ok (session_of mine yours info), w'))
  derive_session_key-IsPair mine yours info w v u short =
      let a = mine.private_key in
      let b = yours.private_key in
      let (w', derived) =
        derive_session_key-hkdf a (std.public_of b) info w v.private_size (std.length-public_of b)
          (std.x25519_nonzero a b v.private_size u.private_size) short in
      (w', rw u.public derived)

  -- Over a library that keeps to its manual, two pairs of keys can be made one after the other, and
  -- each end derives the same session key from its private key and the other's public key, at any
  -- time, for one info up to 1024 bytes.
  pub derive_session_key_agrees :
      (info : Bytes) (w u v : World)
      → length info ≤ 1024
      → (alice bob : KeyPair) × (w1 w2 u' v' : World) × (session : Bytes) × (generate_key_pair lib w
          ≡ (ok alice, w1))
        × (generate_key_pair lib w1 ≡ (ok bob, w2))
        × (derive_session_key lib alice.private_key bob.public_key info u ≡ (ok session, u'))
        × (derive_session_key lib bob.private_key alice.public_key info v ≡ (ok session, v'))
  derive_session_key_agrees info w u v hi =
      let (alice, w1, made1, p) = generate_key_pair-IsPair w in
      let (bob, w2, made2, q) = generate_key_pair-IsPair w1 in
      let (u', mine) = derive_session_key-IsPair alice bob info u p q hi in
      let (v', yours) = derive_session_key-IsPair bob alice info v q p hi in
      (
        alice,
        bob,
        w1,
        w2,
        u',
        v',
        session_of alice bob info,
        made1,
        made2,
        mine,
        rw (← session_of_swap alice bob info) yours,
      )
