-- ===== src/KeyAgreement.antt =====
-- The key agreement of core/include/crypto.hpp and core/src/crypto.cpp over the calls of OpenSSL for
-- X25519 and HKDF, which are the fields of a record, like those of OpenSsl. The keys and contexts are
-- freed on every way out, which the model leaves out.
pub mod Documented
pub mod Agreement
use off_drop.Base.{ℕ, ◌-◌, ◌%◌, ◌^◌, [], ◌∷◌, ◌++◌, length, replicate, Option, ltb, if◌then◌else◌}
use off_drop.Base.Result.{Result, ok, fault, open_ssl}
use off_drop.Base.Action.{Action, pure, ◌>>=◌, lift, or_throw, settle}
use off_drop.Protocol.{Bytes}

-- `none` is the return value on which crypto.cpp throws. What a call writes into a buffer is its
-- result; the number behind a context is the room in the buffer, or a length as an `int`.
pub record PkeyCalls (World : Type 0) : Type 1 where
  pub Pkey : Type 0
  pub PkeyCtx : Type 0
  -- `EVP_PKEY_CTX_new_id` for X25519 and for HKDF.
  pub ctx_new_x25519 : World → Option PkeyCtx × World
  pub ctx_new_hkdf : World → Option PkeyCtx × World
  pub keygen_init : PkeyCtx → Option PkeyCtx
  pub keygen : PkeyCtx → World → Option Pkey × World
  pub get_raw_public_key : Pkey → ℕ → Option Bytes
  pub get_raw_private_key : Pkey → ℕ → Option Bytes
  pub new_raw_private_key : Bytes → World → Option Pkey × World
  pub new_raw_public_key : Bytes → World → Option Pkey × World
  pub ctx_new : Pkey → World → Option PkeyCtx × World
  pub derive_init : PkeyCtx → Option PkeyCtx
  pub derive_set_peer : PkeyCtx → Pkey → Option PkeyCtx
  pub derive : PkeyCtx → ℕ → Option Bytes
  pub set_hkdf_md : PkeyCtx → Option PkeyCtx
  pub set_hkdf_salt : PkeyCtx → Bytes → Option PkeyCtx
  pub set_hkdf_key : PkeyCtx → Bytes → ℕ → Option PkeyCtx
  pub add_hkdf_info : PkeyCtx → Bytes → ℕ → Option PkeyCtx

abbrev pub key_size : ℕ
key_size = 32

pub record KeyPair : Type 0 where
  pub public_key : Bytes
  pub private_key : Bytes

-- A `std::array` of 32 zeros, into which a call wrote from the start. A write past it is undefined.
pub into_array : Bytes → Result Bytes
into_array out =
    if ltb key_size (length out) then fault else ok (out ++ replicate (key_size - length out) 0)

module _ {World : Type 0} (lib : PkeyCalls World) where
  abbrev try {ℓ} : {A : Type ℓ} → Option A → Action World A
  try r = or_throw open_ssl r

  abbrev call {ℓ} : {A : Type ℓ} → (World → Option A × World) → Action World A
  call f w = settle open_ssl (f w)

  pub generate_key_pair : Action World KeyPair
  unfolding into_array
  generate_key_pair = do
    pctx ← call lib.ctx_new_x25519
    started ← try (lib.keygen_init pctx)
    pkey ← call (lib.keygen started)
    public_out ← try (lib.get_raw_public_key pkey key_size)
    public_key ← lift (into_array public_out)
    private_out ← try (lib.get_raw_private_key pkey key_size)
    private_key ← lift (into_array private_out)
    pure (record { public_key = public_key; private_key = private_key })

  -- The part up to the shared secret, and the part through HKDF.
  shared_secret : Bytes → Bytes → Action World Bytes
  unfolding into_array
  shared_secret my_private peer_public = do
    my_pkey ← call (lib.new_raw_private_key my_private)
    peer_pkey ← call (lib.new_raw_public_key peer_public)
    dctx ← call (lib.ctx_new my_pkey)
    started ← try (lib.derive_init dctx)
    with_peer ← try (lib.derive_set_peer started peer_pkey)
    out ← try (lib.derive with_peer key_size)
    lift (into_array out)

  through_hkdf : Bytes → Bytes → Action World Bytes
  unfolding into_array
  through_hkdf secret info = do
    hctx ← call lib.ctx_new_hkdf
    started ← try (lib.derive_init hctx)
    with_md ← try (lib.set_hkdf_md started)
    with_salt ← try (lib.set_hkdf_salt with_md [])
    with_key ← try (lib.set_hkdf_key with_salt secret (length secret % 2 ^ 32))
    with_info ← try (lib.add_hkdf_info with_key info (length info % 2 ^ 32))
    out ← try (lib.derive with_info key_size)
    lift (into_array out)

  pub derive_session_key : Bytes → Bytes → Bytes → Action World Bytes
  unfolding shared_secret through_hkdf
  derive_session_key my_private peer_public info =
      shared_secret my_private peer_public >>= λ secret. through_hkdf secret info
