-- ===== src/Crypto/Digest.antt =====
-- `Sha256File` of core/src/crypto.cpp over a library that keeps to its manual: the blocks of the
-- loop make up the file.
use off_drop.Base.{ℕ, zero, suc, ◌+◌, ◌≤◌, ◌≡◌, refl, ap, ◌∙◌, sym, arith}
use off_drop.Base.{[], ◌∷◌, ◌++◌, length, take, drop, some, none, append-nil, append_assoc}
use off_drop.Base.{true, leb, leb→le, leb→lt, Bool-cases, inl, inr}
use off_drop.Base.{take-append-drop, length-drop, take_of_length-le}
use off_drop.Base.Result.{ok, err, cannot_open_for_hashing}
use off_drop.Protocol.{Bytes}
use off_drop.Files.{FileSystem, open_in, read_block}
use off_drop.OpenSsl.{OpenSsl}
use off_drop.OpenSsl.Documented.{Standard, Documented}
use off_drop.Crypto.{sha256_bytes, sha256_file, digest_loop, digest_some, hash_block}

module _ (lib : OpenSsl) (std : Standard) (doc : Documented lib std) where
  digest_some_lem :
      (c : lib.MdCtx) (block : Bytes) (w : lib.World)
      → (c' : lib.MdCtx) × (digest_some lib c block w ≡ (ok c', w))
        × (doc.fed c' ≡ doc.fed c ++ block)
  unfolding digest_some
  digest_some_lem c [] w = (c, refl, sym (append-nil (doc.fed c)))
  digest_some_lem c (b ∷ bytes) w =
      let (c', done, more) = doc.digest_update_lem c (b ∷ bytes) in (c', rw done refl, more)

  -- A round for a whole block, and one for what falls short of it.
  digest_loop_lem :
      (fuel : ℕ) (u : Bytes) (c : lib.MdCtx) (w : lib.World)
      → length u + 2 ≤ fuel
      → (c' : lib.MdCtx) × (digest_loop lib fuel (record { unread = u; good = true }) c w
          ≡ (ok c', w))
        × (doc.fed c' ≡ doc.fed c ++ u)
  unfolding digest_loop read_block
  digest_loop_lem zero u c w h = absurd (omega arith)
  digest_loop_lem (suc zero) u c w h = absurd (omega arith)
  digest_loop_lem (suc (suc fuel)) u c w h =
      let (c1, done, more) = digest_some_lem c (take hash_block u) w in
      elim (Bool-cases (leb hash_block (length u))) [
        | inl long ↦
            let shorter : length (drop hash_block u) + 2 ≤ suc fuel =
              omega (arith, leb→le _ _ long, length-drop hash_block u) in
            let (c2, rest, all) = digest_loop_lem (suc fuel) (drop hash_block u) c1 w shorter in
            (c2, rw (done, long, rest) refl, all ∙ rw (more, append_assoc, take-append-drop) refl)
        | inr short ↦
            let whole = take_of_length-le hash_block u (omega (arith, leb→lt _ _ short)) in
            (c1, rw (done, short) refl, more ∙ ap (◌++◌ (doc.fed c)) whole)
      ]

  -- `sha256_file` of a file that can be opened returns the SHA-256 of its bytes, as `sha256_bytes`
  -- does for the bytes, over a library that keeps to its manual.
  pub sha256_file-sha256 :
      (fs : FileSystem) (path bytes : Bytes) (w : lib.World)
      → open_in fs path ≡ some bytes
      → (w' : lib.World) × (sha256_file lib fs path w ≡ (ok (std.sha256 bytes), w'))
        × (sha256_bytes lib bytes w ≡ (ok (std.sha256 bytes), w))
  unfolding sha256_file sha256_bytes
  sha256_file-sha256 fs path bytes w opened =
      let (c, w1, made) = doc.md_ctx_new_lem w in
      let (c1, started, empty) = doc.digest_init_lem c in
      let (c2, fed, all) = digest_loop_lem (length bytes + 2) bytes c1 w1 (omega arith) in
      (
        w1,
        rw (opened, made, started, fed, doc.digest_final_lem c2) (rw (all, empty) refl),
        rw doc.digest_once_lem refl,
      )

  -- A file that cannot be opened.
  pub sha256_file_unopened :
      (fs : FileSystem) (path : Bytes) (w : lib.World)
      → open_in fs path ≡ none
      → sha256_file lib fs path w ≡ (err cannot_open_for_hashing, w)
  unfolding sha256_file
  sha256_file_unopened fs path w closed = rw closed
