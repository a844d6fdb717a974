-- ===== src/Tests/Toy.antt =====
-- A library that keeps to the manual of the calls in core/src/crypto.cpp, with functions that can be
-- computed in place of the ciphers: the text goes out as it is, and its tag is sixteen times its
-- length.
use off_drop.Base.{take, ℕ, zero, suc, ◌%◌, ◌≡◌, ◌≢◌, refl, arith}
use off_drop.Base.{Option, none, some, [], ◌++◌, length, replicate, length-replicate, All}
use off_drop.Base.{if◌then◌else◌, Bool-cases, inl, inr}
use off_drop.Protocol.{Bytes, IsByte}
use off_drop.Files.{bytes_eq, bytes_eq_refl, bytes_eq→eq}
use off_drop.OpenSsl.{OpenSsl}
use off_drop.OpenSsl.Documented.{
  Standard, CipherView, keyed, Documented, no_algorithm, encrypt_chosen, encrypt_keyed,
  encrypt_finished, decrypt_chosen, decrypt_keyed,
}

pub replicate-IsByte : (n b : ℕ) → IsByte b → All IsByte (replicate n b)
replicate-IsByte zero b h = tt
replicate-IsByte (suc n) b h = (h, replicate-IsByte n b h)

abbrev pub toy_mac : Bytes → Bytes
toy_mac text = replicate 16 (length text % 256)

abbrev pub toy_standard : Standard
toy_standard = record {
  encrypt = λ key nonce text. text;
  decrypt = λ key nonce text. text;
  mac = λ key nonce text. toy_mac text;
  sha256 = λ bytes. bytes;
  decrypt-encrypt = λ key nonce text. refl;
  length-encrypt = λ key nonce text. refl;
  length-decrypt = λ key nonce text. refl;
  length-mac = λ key nonce text. length-replicate 16 (length text % 256);
  encrypt-IsByte = λ key nonce text h. h;
  mac-IsByte = λ key nonce text. replicate-IsByte 16 (length text % 256) (omega arith);
}

abbrev pub fresh : CipherView
fresh = record {
  stage = no_algorithm;
  ivlen = 12;
  key = [];
  nonce = [];
  ciphertext = [];
  expected_tag = [];
}

abbrev pub toy_final : CipherView → Option (Bytes × CipherView)
toy_final v = if bytes_eq v.expected_tag (toy_mac v.ciphertext) then some ([], v) else none

abbrev pub toy_ssl : OpenSsl
toy_ssl = record {
  World = ℕ;
  CipherCtx = CipherView;
  MdCtx = Bytes;
  rand_bytes = λ n w. (some (replicate n 7), suc w);
  cipher_ctx_new = λ w. (some fresh, w);
  encrypt_init_alg = λ c. some (record c { stage = encrypt_chosen });
  encrypt_init_key = λ c k n. some (keyed encrypt_keyed k n c);
  decrypt_init_alg = λ c. some (record c { stage = decrypt_chosen });
  decrypt_init_key = λ c k n. some (keyed decrypt_keyed k n c);
  set_ivlen = λ c n. some (record c { ivlen = n });
  get_tag = λ c n. some (toy_mac c.ciphertext);
  set_tag = λ c n tag. some (record c { expected_tag = tag });
  encrypt_update = λ c text n. some (take n text, record c { ciphertext = take n text });
  encrypt_final = λ c. some ([], record c { stage = encrypt_finished });
  decrypt_update = λ c text n. some (text, record c { ciphertext = text });
  decrypt_final = toy_final;
  digest_once = λ bytes. some bytes;
  md_ctx_new = λ w. (some [], w);
  digest_init = λ c. some [];
  digest_update = λ c part. some (c ++ part);
  digest_final = λ c. some c;
}

toy_final_same :
    (v : CipherView) → v.expected_tag ≡ toy_mac v.ciphertext → toy_final v ≡ some ([], v)
toy_final_same v e = rw (e, bytes_eq_refl) refl

toy_final_other : (v : CipherView) → v.expected_tag ≢ toy_mac v.ciphertext → toy_final v ≡ none
toy_final_other v ne = elim (Bool-cases (bytes_eq v.expected_tag (toy_mac v.ciphertext))) [
  | inl same ↦ absurd (ne (bytes_eq→eq _ _ same))
  | inr other ↦ rw other refl
]

pub toy-Documented : Documented toy_ssl toy_standard
toy-Documented = record {
  view = λ c. c;
  fed = λ c. c;
  rand_bytes_lem =
      λ n w. (replicate n 7, suc w, refl, length-replicate n 7, replicate-IsByte n 7 (omega arith));
  cipher_ctx_new_lem = λ w. (fresh, w, refl);
  encrypt_init_alg_lem = λ c. (record c { stage = encrypt_chosen }, refl, refl);
  decrypt_init_alg_lem = λ c. (record c { stage = decrypt_chosen }, refl, refl);
  set_ivlen_lem = λ c n h at. (record c { ivlen = n }, refl, refl);
  encrypt_init_key_lem = λ c k n at h. (keyed encrypt_keyed k n c, refl, refl);
  decrypt_init_key_lem = λ c k n at h. (keyed decrypt_keyed k n c, refl, refl);
  encrypt_update_lem = λ c text n h k l at e. (record c { ciphertext = take n text }, refl, refl);
  decrypt_update_lem = λ c text h at e. (record c { ciphertext = text }, refl, refl);
  encrypt_final_lem = λ c at. (record c { stage = encrypt_finished }, refl, refl);
  get_tag_lem = λ c at. refl;
  set_tag_lem = λ c tag h at. (record c { expected_tag = tag }, refl, refl);
  decrypt_final_same = λ c at e. (c, toy_final_same c e);
  decrypt_final_other = λ c at ne. toy_final_other c ne;
  digest_once_lem = λ bytes. refl;
  md_ctx_new_lem = λ w. ([], w, refl);
  digest_init_lem = λ c. ([], refl, refl);
  digest_update_lem = λ c part. (c ++ part, refl, refl);
  digest_final_lem = λ c. refl;
}
