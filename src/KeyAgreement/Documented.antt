-- ===== src/KeyAgreement/Documented.antt =====
-- What OpenSSL documents of the calls for X25519 and HKDF that core/src/crypto.cpp makes, where they
-- succeed, and what RFC 7748 and RFC 5869 say of the functions behind them.
use off_drop.Base.{◌≤◌, ◌≡◌, ◌≢◌, some, [], ◌++◌, length, replicate}
use off_drop.Protocol.{Bytes}
use off_drop.KeyAgreement.{PkeyCalls}

pub record KeyStandard : Type 0 where
  pub public_of : Bytes → Bytes
  pub x25519 : Bytes → Bytes → Bytes
  -- The salt, the key and the info.
  pub hkdf : Bytes → Bytes → Bytes → Bytes
  pub length-public_of : (a : Bytes) → length (public_of a) ≡ 32
  pub length-x25519 : (a p : Bytes) → length (x25519 a p) ≡ 32
  pub length-hkdf : (s k i : Bytes) → length (hkdf s k i) ≡ 32
  -- Diffie and Hellman: both ends compute the same point, which is not the point at zero.
  pub x25519_agrees : (a b : Bytes) → x25519 a (public_of b) ≡ x25519 b (public_of a)
  pub x25519_nonzero :
      (a b : Bytes) → length a ≡ 32 → length b ≡ 32 → x25519 a (public_of b) ≢ replicate 32 0

-- What a context has been given: a private key, whose derivation is started, and which has the
-- peer's public key then; or HKDF, which is started, and which has its digest and its parts then.
pub data CtxView : Type 0 where
  with_key : Bytes → CtxView
  with_key_started : Bytes → CtxView
  exchange : Bytes → Bytes → CtxView
  with_hkdf with_hkdf_started : CtxView
  kdf : Bytes → Bytes → Bytes → CtxView

pub record KeyDocumented {World : Type 0} (lib : PkeyCalls World) (std : KeyStandard) : Type 0 where
  pub private_of : lib.Pkey → Bytes
  pub public_part : lib.Pkey → Bytes
  pub view : lib.PkeyCtx → CtxView
  pub ctx_new_x25519_lem :
      (w : World) → (c : lib.PkeyCtx) × (w' : World) × (lib.ctx_new_x25519 w ≡ (some c, w'))
  pub keygen_init_lem : (c : lib.PkeyCtx) → (c' : lib.PkeyCtx) × (lib.keygen_init c ≡ some c')
  pub keygen_lem :
      (c c' : lib.PkeyCtx) (w : World)
      → lib.keygen_init c ≡ some c'
      → (k : lib.Pkey) × (w' : World) × (lib.keygen c' w ≡ (some k, w'))
        × (length (private_of k) ≡ 32)
        × (public_part k ≡ std.public_of (private_of k))
  pub get_raw_public_key_lem :
      (k : lib.Pkey)
      → length (public_part k) ≡ 32
      → lib.get_raw_public_key k 32 ≡ some (public_part k)
  pub get_raw_private_key_lem :
      (k : lib.Pkey)
      → length (private_of k) ≡ 32
      → lib.get_raw_private_key k 32 ≡ some (private_of k)
  pub new_raw_private_key_lem :
      (a : Bytes) (w : World)
      → length a ≡ 32
      → (k : lib.Pkey) × (w' : World) × (lib.new_raw_private_key a w ≡ (some k, w'))
        × (private_of k ≡ a)
  pub new_raw_public_key_lem :
      (p : Bytes) (w : World)
      → length p ≡ 32
      → (k : lib.Pkey) × (w' : World) × (lib.new_raw_public_key p w ≡ (some k, w'))
        × (public_part k ≡ p)
  pub ctx_new_lem :
      (k : lib.Pkey) (w : World)
      → (c : lib.PkeyCtx) × (w' : World) × (lib.ctx_new k w ≡ (some c, w'))
        × (view c ≡ with_key (private_of k))
  pub derive_init_lem :
      (c : lib.PkeyCtx) (a : Bytes)
      → view c ≡ with_key a
      → (c' : lib.PkeyCtx) × (lib.derive_init c ≡ some c') × (view c' ≡ with_key_started a)
  pub derive_set_peer_lem :
      (c : lib.PkeyCtx) (k : lib.Pkey) (a : Bytes)
      → view c ≡ with_key_started a
      → (c' : lib.PkeyCtx) × (lib.derive_set_peer c k ≡ some c')
        × (view c' ≡ exchange a (public_part k))
  pub derive_exchange_lem :
      (c : lib.PkeyCtx) (a p : Bytes)
      → view c ≡ exchange a p
      → std.x25519 a p ≢ replicate 32 0
      → lib.derive c 32 ≡ some (std.x25519 a p)
  pub ctx_new_hkdf_lem :
      (w : World)
      → (c : lib.PkeyCtx) × (w' : World) × (lib.ctx_new_hkdf w ≡ (some c, w'))
        × (view c ≡ with_hkdf)
  pub derive_init_hkdf_lem :
      (c : lib.PkeyCtx)
      → view c ≡ with_hkdf
      → (c' : lib.PkeyCtx) × (lib.derive_init c ≡ some c') × (view c' ≡ with_hkdf_started)
  pub set_hkdf_md_lem :
      (c : lib.PkeyCtx)
      → view c ≡ with_hkdf_started
      → (c' : lib.PkeyCtx) × (lib.set_hkdf_md c ≡ some c') × (view c' ≡ kdf [] [] [])
  pub set_hkdf_salt_lem :
      (c : lib.PkeyCtx) (new s k i : Bytes)
      → view c ≡ kdf s k i
      → (c' : lib.PkeyCtx) × (lib.set_hkdf_salt c new ≡ some c') × (view c' ≡ kdf new k i)
  pub set_hkdf_key_lem :
      (c : lib.PkeyCtx) (new s k i : Bytes)
      → length new ≡ 32
      → view c ≡ kdf s k i
      → (c' : lib.PkeyCtx) × (lib.set_hkdf_key c new 32 ≡ some c') × (view c' ≡ kdf s new i)
  -- The info is added behind what is there, up to 1024 bytes.
  pub add_hkdf_info_lem :
      (c : lib.PkeyCtx) (new s k i : Bytes)
      → length i ≡ 0
      → length new ≤ 1024
      → view c ≡ kdf s k i
      → (c' : lib.PkeyCtx) × (lib.add_hkdf_info c new (length new) ≡ some c')
        × (view c' ≡ kdf s k (i ++ new))
  -- A key is set.
  pub derive_hkdf_lem :
      (c : lib.PkeyCtx) (s k i : Bytes)
      → 1 ≤ length k
      → view c ≡ kdf s k i
      → lib.derive c 32 ≡ some (std.hkdf s k i)
