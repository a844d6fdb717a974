-- ===== src/Daemon/Keys.antt =====
-- `GenerateKeyPair` and `DeriveSessionKey` of cmd/daemon/bridge.go, over a library that keeps to its
-- manuals and a `malloc` that serves.
use off_drop.Base.{ℕ, suc, ◌≤◌, ◌≡◌, refl, subst, arith}
use off_drop.Base.{[], ◌∷◌, ◌++◌, length, length-replicate, some}
use off_drop.Base.Result.{ok}
use off_drop.Protocol.{Bytes}
use off_drop.OpenSsl.{OpenSsl}
use off_drop.KeyAgreement.{PkeyCalls, KeyPair}
use off_drop.KeyAgreement.Documented.{KeyStandard, KeyDocumented}
use off_drop.KeyAgreement.Agreement.{IsPair, session_of}
use off_drop.Memory.{Memory, Malloc, write, load}
use off_drop.Memory.Writes.{write_self, load_whole}
use off_drop.Daemon.Strings.{IsText, load_string-text}
use off_drop.CApi.{reading}
use off_drop.CApi.Handing.{Serves, IsFresh}
use off_drop.CApi.{airdrop_generate_keypair, airdrop_derive_session_key}
use off_drop.Base.Action.{◌>>=◌}
use off_drop.CApi.Keys.{with_pair, generate_call, derive_call}
use off_drop.Daemon.{
  Go, Returned, value, zeros, with_bytes, with_block, with_string, if_ok, pair_of,
  generate_key_pair, derive_session_key,
}
use off_drop.Daemon.Arrays.{
  Touches, Touches-Restores, with_block_touched, with_block_untouched, with_string_untouched,
}
use off_drop.Daemon.Locals.{Restores, Leaves, with_bytes-IsFresh}

-- An array of 32 bytes is read.
pub load_array :
    (m : Memory) (a : ℕ) (bytes : Bytes)
    → m.blocks a ≡ some bytes
    → length bytes ≡ 32
    → load (some a) 32 m ≡ ok bytes
load_array m a bytes there size =
    subst (λ (n : ℕ). load (some a) n m ≡ ok bytes) size (load_whole m a bytes there)

pub zeros_size : length zeros ≡ 32
zeros_size = length-replicate {A = ℕ} 32 0

module _ (lib : OpenSsl) (malloc : Malloc) (pkey : PkeyCalls lib.World) (std : KeyStandard)
    (doc : KeyDocumented pkey std) where
  module _ (m : Memory) (fresh : IsFresh m) where
    abbrev m1 : Memory
    m1 = with_bytes m zeros

    abbrev m2 : Memory
    m2 = with_bytes m1 zeros

    fresh1 : IsFresh m1
    fresh1 = with_bytes-IsFresh m zeros fresh

    fresh2 : IsFresh m2
    fresh2 = with_bytes-IsFresh m1 zeros fresh1

    abbrev behind_private : ℕ → ℕ → Go lib malloc (Returned KeyPair)
    behind_private public private = do
      status ← airdrop_generate_keypair lib malloc pkey (some public) (some private)
      if_ok lib malloc status (pair_of lib malloc pkey public private)

    abbrev behind_public : ℕ → Go lib malloc (Returned KeyPair)
    behind_public public = with_block lib malloc zeros (behind_private public)

    pub generate_key_pair-Restores :
        (w : lib.World)
        → (kp : KeyPair) × (w' : lib.World) × IsPair pkey std doc kp
          × Leaves lib.World Restores
              (generate_key_pair lib malloc pkey (w, m))
              m
              (ok (value kp))
              w'
    unfolding generate_key_pair if_ok pair_of
    generate_key_pair-Restores w =
        let n = m.next in
        let at_public : m2.blocks n ≡ some zeros = unfold write in ground arith in
        let at_private : m2.blocks (suc n) ≡ some zeros = unfold write in ground arith in
        let (kp, w', v, called) =
          generate_call lib malloc pkey std doc m2 n (suc n) w (zeros, at_public, zeros_size)
            (zeros, at_private, zeros_size) in
        let m3 = with_pair m2 n (suc n) kp in
        let has_public : m3.blocks n ≡ some kp.public_key = unfold write in ground arith in
        let has_private : m3.blocks (suc n) ≡ some kp.private_key = unfold write in ground arith in
        let wide : length kp.public_key ≡ 32 = rw v.public (std.length-public_of kp.private_key) in
        let inner : Leaves lib.World (Touches n (suc m1.next)) (behind_private n (suc n) (w, m2)) m2
            (ok (value kp)) w' =
          (
            m3,
            rw
                (
                  called,
                  load_array m3 n kp.public_key has_public wide,
                  load_array m3 (suc n) kp.private_key has_private v.private_size,
                )
                refl,
            record {
              blocks = λ a side. unfold write in ground (arith, side);
              fresh = λ a h. unfold write in ground (arith, fresh2 a h);
            },
          ) in
        let (m', run, touched) =
          with_block_touched lib malloc n zeros behind_public m w w' (ok (value kp)) fresh (
            with_block_touched lib malloc n zeros (behind_private n) m1 w w' (ok (value kp)) fresh1
              inner) in
        (kp, w', v, (m', run, Touches-Restores n m m' touched))

  module _ (m : Memory) (fresh : IsFresh m) (mine yours : KeyPair) (info : Bytes) where
    abbrev n1 : Memory
    n1 = with_bytes m zeros

    abbrev n2 : Memory
    n2 = with_bytes n1 (info ++ 0 ∷ [])

    abbrev n3 : Memory
    n3 = with_bytes n2 mine.private_key

    abbrev n4 : Memory
    n4 = with_bytes n3 yours.public_key

    fresh_n1 : IsFresh n1
    fresh_n1 = with_bytes-IsFresh m zeros fresh

    fresh_n2 : IsFresh n2
    fresh_n2 = with_bytes-IsFresh n1 (info ++ 0 ∷ []) fresh_n1

    fresh_n3 : IsFresh n3
    fresh_n3 = with_bytes-IsFresh n2 mine.private_key fresh_n2

    abbrev behind_yours : ℕ → ℕ → ℕ → ℕ → Go lib malloc (Returned Bytes)
    behind_yours session text private public = do
      status ←
          airdrop_derive_session_key lib malloc pkey (some private) (some public) (some text)
            (some session)
      if_ok lib malloc status (reading lib malloc (load (some session) 32))

    abbrev behind_mine : ℕ → ℕ → ℕ → Go lib malloc (Returned Bytes)
    behind_mine session text private =
        with_block lib malloc yours.public_key (behind_yours session text private)

    abbrev behind_text : ℕ → ℕ → Go lib malloc (Returned Bytes)
    behind_text session text = with_block lib malloc mine.private_key (behind_mine session text)

    abbrev behind_session : ℕ → Go lib malloc (Returned Bytes)
    behind_session session = with_string lib malloc info (behind_text session)

    pub derive_session_key-Restores :
        (w : lib.World)
        → Serves malloc
        → IsPair pkey std doc mine
        → IsPair pkey std doc yours
        → IsText info
        → length info ≤ 1024
        → (w' : lib.World) × Leaves lib.World Restores
            (derive_session_key lib malloc pkey mine.private_key yours.public_key info (w, m))
            m
            (ok (value (session_of pkey std doc mine yours info)))
            w'
    unfolding derive_session_key if_ok
    derive_session_key-Restores w serves v u is_text short =
        let n = m.next in
        let a = suc n in
        let b = suc a in
        let session = session_of pkey std doc mine yours info in
        let at_session : n4.blocks n ≡ some zeros = unfold write in ground arith in
        let at_text : n4.blocks a ≡ some (info ++ 0 ∷ []) = unfold write in ground arith in
        let at_mine : n4.blocks b ≡ some mine.private_key = unfold write in ground arith in
        let at_yours : n4.blocks (suc b) ≡ some yours.public_key = unfold write in ground arith in
        let (w', called) =
          derive_call lib malloc pkey std doc n4 mine yours b (suc b) a n info w v u at_mine
            at_yours (load_string-text n4 a info at_text is_text) short
            (zeros, at_session, zeros_size) in
        let n5 : Memory = record n4 { blocks = write n4.blocks n (some session) } in
        let there = write_self n4.blocks n (some session) in
        let r = ok (value session) in
        let inner : Leaves lib.World (Touches n a) (behind_yours n a b (suc b) (w, n4)) n4 r w' = (
          n5,
          rw (called, load_array n5 n session there (std.length-hkdf _ _ _)) refl,
          record {
            blocks = λ c side. unfold write in ground (arith, side);
            fresh = λ c h.
                unfold write in ground (arith, with_bytes-IsFresh n3 yours.public_key fresh_n3 c h);
          },
        ) in
        let (m', run, touched) =
          with_block_touched lib malloc n zeros behind_session m w w' r fresh (
            with_string_untouched lib malloc n a info (behind_text n) n1 w w' r serves fresh_n1
              (omega arith)
              (with_block_untouched lib malloc n a mine.private_key (behind_mine n a) n2 w w' r
                fresh_n2
                (with_block_untouched lib malloc n a yours.public_key (behind_yours n a b) n3 w w' r
                  fresh_n3 inner))) in
        (w', (m', run, Touches-Restores n m m' touched))
