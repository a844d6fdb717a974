-- ===== src/CApi/Hashing.antt =====
-- `airdrop_sha256_file` of core/src/c_api.cpp, over a library that keeps to its manual.
use off_drop.Base.{ℕ, ◌≡◌, refl, length, some, none}
use off_drop.Base.Result.{ok}
use off_drop.Protocol.{Bytes}
use off_drop.Files.{FileSystem, open_in}
use off_drop.OpenSsl.{OpenSsl}
use off_drop.OpenSsl.Documented.{Standard, Documented}
use off_drop.Crypto.Digest.{sha256_file-sha256, sha256_file_unopened}
use off_drop.Memory.{Memory, Malloc, write, load_string}
use off_drop.Memory.Writes.{copy_to_whole}
use off_drop.CApi.{airdrop_ok, airdrop_err_io, caught, guarded, sha256_body, airdrop_sha256_file}

module _ (lib : OpenSsl) (std : Standard) (doc : Documented lib std) (malloc : Malloc) where
  -- `airdrop_sha256_file` of a path whose file can be opened returns AIRDROP_OK and writes the
  -- SHA-256 of the file's bytes into the caller's block, which is as long, and nothing else.
  pub airdrop_sha256_file-sha256 :
      (disk : FileSystem) (path out : ℕ) (name file old : Bytes) (m : Memory) (w : lib.World)
      → load_string (some path) m ≡ ok name
      → open_in disk name ≡ some file
      → m.blocks out ≡ some old
      → length old ≡ length (std.sha256 file)
      → (w' : lib.World) × (airdrop_sha256_file lib malloc disk (some path) (some out) (w, m) ≡ (
        ok airdrop_ok,
        (w', record m { blocks = write m.blocks out (some (std.sha256 file)) }),
      ))
  unfolding airdrop_sha256_file guarded caught sha256_body
  airdrop_sha256_file-sha256 disk path out name file old m w named opened there size =
      let (w', hashed, _) = sha256_file-sha256 lib std doc disk name file w opened in
      let copied = copy_to_whole m out (std.sha256 file) old there size in
      (w', rw (named, hashed, copied) refl)

  -- A file that cannot be opened.
  pub airdrop_sha256_file_unopened :
      (disk : FileSystem) (path out : ℕ) (name : Bytes) (m : Memory) (w : lib.World)
      → load_string (some path) m ≡ ok name
      → open_in disk name ≡ none
      → airdrop_sha256_file lib malloc disk (some path) (some out) (w, m)
        ≡ (ok airdrop_err_io, (w, m))
  unfolding airdrop_sha256_file guarded caught sha256_body
  airdrop_sha256_file_unopened disk path out name m w named closed =
      rw (named, sha256_file_unopened lib std doc disk name w closed) refl
