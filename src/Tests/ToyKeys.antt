-- ===== src/Tests/ToyKeys.antt =====
-- A library that keeps to the manual of the calls for X25519 and HKDF, with functions that can be
-- computed in place of the curve: a key stands for its first number, and the shared secret for the
-- product of two of them and one.
use off_drop.Base.{ℕ, suc, ◌+◌, ◌*◌, ◌≡◌, ◌≢◌, refl, ap, arith}
use off_drop.Base.{Option, none, some, [], ◌∷◌, ◌++◌, length, replicate}
use off_drop.Protocol.{Bytes}
use off_drop.KeyAgreement.{PkeyCalls}
use off_drop.KeyAgreement.Documented.{
  KeyStandard, CtxView, exchange, kdf, with_key, with_key_started, with_hkdf, with_hkdf_started,
  KeyDocumented,
}

abbrev pub first : Bytes → ℕ
first [] = 0
first (b ∷ bytes) = b

abbrev pub toy_public : Bytes → Bytes
toy_public a = replicate 32 (first a)

abbrev pub toy_x25519 : Bytes → Bytes → Bytes
toy_x25519 a p = replicate 32 (suc (first a * first p))

abbrev pub toy_hkdf : Bytes → Bytes → Bytes → Bytes
toy_hkdf s k i = replicate 32 (first k + length i)

pub toy_x25519_agrees : (a b : Bytes) → toy_x25519 a (toy_public b) ≡ toy_x25519 b (toy_public a)
toy_x25519_agrees a b =
    let product : first a * first b ≡ first b * first a = omega arith in
    ap (λ (n : ℕ). replicate 32 (suc n)) product

pub toy_x25519_nonzero : (a b : Bytes) → toy_x25519 a (toy_public b) ≢ replicate 32 0
toy_x25519_nonzero a b e = absurd (omega (arith, ap first e))

abbrev pub toy_keys : KeyStandard
toy_keys = record {
  public_of = toy_public;
  x25519 = toy_x25519;
  hkdf = toy_hkdf;
  length-public_of = λ a. refl;
  length-x25519 = λ a p. refl;
  length-hkdf = λ s k i. refl;
  x25519_agrees = toy_x25519_agrees;
  x25519_nonzero = λ a b ha hb. toy_x25519_nonzero a b;
}

abbrev pub toy_derive : CtxView → Option Bytes
toy_derive (exchange a p) = some (toy_x25519 a p)
toy_derive (kdf s k i) = some (toy_hkdf s k i)
toy_derive (with_key a) = none
toy_derive (with_key_started a) = none
toy_derive with_hkdf = none
toy_derive with_hkdf_started = none

abbrev toy_init : CtxView → Option CtxView
toy_init (with_key a) = some (with_key_started a)
toy_init (with_key_started a) = none
toy_init (exchange a p) = none
toy_init (kdf s k i) = none
toy_init with_hkdf = some with_hkdf_started
toy_init with_hkdf_started = none

abbrev toy_md : CtxView → Option CtxView
toy_md with_hkdf_started = some (kdf [] [] [])
toy_md (with_key a) = none
toy_md (with_key_started a) = none
toy_md (exchange a p) = none
toy_md (kdf s k i) = none
toy_md with_hkdf = none

abbrev pub toy_set_peer : CtxView → Bytes × Bytes → Option CtxView
toy_set_peer (with_key_started a) k = some (exchange a k.1)
toy_set_peer (with_key a) peer = none
toy_set_peer (exchange a p) peer = none
toy_set_peer (kdf s k i) peer = none
toy_set_peer with_hkdf peer = none
toy_set_peer with_hkdf_started peer = none

abbrev pub toy_salt : CtxView → Bytes → Option CtxView
toy_salt (exchange a p) new = none
toy_salt (with_key a) new = none
toy_salt (with_key_started a) new = none
toy_salt with_hkdf new = none
toy_salt with_hkdf_started new = none
toy_salt (kdf s k i) new = some (kdf new k i)

abbrev pub toy_key : CtxView → Bytes → Option CtxView
toy_key (exchange a p) new = none
toy_key (with_key a) new = none
toy_key (with_key_started a) new = none
toy_key with_hkdf new = none
toy_key with_hkdf_started new = none
toy_key (kdf s k i) new = some (kdf s new i)

abbrev pub toy_info : CtxView → Bytes → Option CtxView
toy_info (exchange a p) new = none
toy_info (with_key a) new = none
toy_info (with_key_started a) new = none
toy_info with_hkdf new = none
toy_info with_hkdf_started new = none
toy_info (kdf s k i) new = some (kdf s k (i ++ new))

-- A key is its private and its public part.
abbrev pub toy_pkey : PkeyCalls ℕ
toy_pkey = record {
  Pkey = Bytes × Bytes;
  PkeyCtx = CtxView;
  ctx_new_x25519 = λ w. (some (with_key []), w);
  ctx_new_hkdf = λ w. (some with_hkdf, w);
  keygen_init = λ c. some c;
  keygen = λ c w. (some (replicate 32 (w + 2), toy_public (replicate 32 (w + 2))), suc w);
  get_raw_public_key = λ k n. some k.1;
  get_raw_private_key = λ k n. some k.0;
  new_raw_private_key = λ a w. (some (a, toy_public a), w);
  new_raw_public_key = λ p w. (some ([], p), w);
  ctx_new = λ k w. (some (with_key k.0), w);
  derive_init = toy_init;
  derive_set_peer = toy_set_peer;
  derive = λ c n. toy_derive c;
  set_hkdf_md = toy_md;
  set_hkdf_salt = toy_salt;
  set_hkdf_key = λ c new n. toy_key c new;
  add_hkdf_info = λ c new n. toy_info c new;
}

pub toy_keys-KeyDocumented : KeyDocumented toy_pkey toy_keys
toy_keys-KeyDocumented = record {
  private_of = λ k. k.0;
  public_part = λ k. k.1;
  view = λ c. c;
  ctx_new_x25519_lem = λ w. (with_key [], w, refl);
  keygen_init_lem = λ c. (c, refl);
  keygen_lem = λ c c' w h.
      ((replicate 32 (w + 2), toy_public (replicate 32 (w + 2))), suc w, refl, refl, refl);
  get_raw_public_key_lem = λ k h. refl;
  get_raw_private_key_lem = λ k h. refl;
  new_raw_private_key_lem = λ a w h. ((a, toy_public a), w, refl, refl);
  new_raw_public_key_lem = λ p w h. (([], p), w, refl, refl);
  ctx_new_lem = λ k w. (with_key k.0, w, refl, refl);
  derive_init_lem = λ c a h. (with_key_started a, rw h refl, refl);
  derive_init_hkdf_lem = λ c h. (with_hkdf_started, rw h refl, refl);
  derive_set_peer_lem = λ c k a h. (exchange a k.1, rw h refl, refl);
  derive_exchange_lem = λ c a p h ne. rw h refl;
  ctx_new_hkdf_lem = λ w. (with_hkdf, w, refl, refl);
  set_hkdf_md_lem = λ c h. (kdf [] [] [], rw h refl, refl);
  set_hkdf_salt_lem = λ c new s k i h. (kdf new k i, rw h refl, refl);
  set_hkdf_key_lem = λ c new s k i long h. (kdf s new i, rw h refl, refl);
  add_hkdf_info_lem = λ c new s k i none_yet short h. (kdf s k (i ++ new), rw h refl, refl);
  derive_hkdf_lem = λ c s k i some_key h. rw h refl;
}
