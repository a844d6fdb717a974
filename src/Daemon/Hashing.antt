-- ===== src/Daemon/Hashing.antt =====
-- `Sha256File` of cmd/daemon/bridge.go, over a library that keeps to its manual and a `malloc` that
-- serves.
use off_drop.Base.{ℕ, suc, ◌≡◌, refl, inl, inr, sym, ◌∙◌, arith}
use off_drop.Base.{[], ◌∷◌, ◌++◌, length, Option, Option-cases, none, some}
use off_drop.Base.Result.{Result, ok}
use off_drop.Base.Action.{◌>>=◌}
use off_drop.Protocol.{Bytes}
use off_drop.Files.{FileSystem, open_in}
use off_drop.OpenSsl.{OpenSsl}
use off_drop.OpenSsl.Documented.{Standard, Documented}
use off_drop.Memory.{Memory, Malloc, write, load}
use off_drop.Memory.Writes.{write_self}
use off_drop.CApi.{airdrop_err_io, airdrop_sha256_file, reading}
use off_drop.CApi.Handing.{Serves, IsFresh}
use off_drop.CApi.Hashing.{airdrop_sha256_file-sha256, airdrop_sha256_file_unopened}
use off_drop.Daemon.{
  Go, Returned, value, failed, zeros, with_bytes, with_string, if_ok, sha256_file,
}
use off_drop.Daemon.Arrays.{Touches, Touches-Restores, with_block_touched, with_string_untouched}
use off_drop.Daemon.Keys.{load_array, zeros_size}
use off_drop.Daemon.Locals.{Restores, Leaves, with_bytes-IsFresh}
use off_drop.Daemon.Strings.{IsText, load_string-text}

-- The hash of a file that can be opened, or the status.
abbrev pub hash_of : Standard → Option Bytes → Result (Returned Bytes)
hash_of std none = ok (failed airdrop_err_io)
hash_of std (some file) = ok (value (std.sha256 file))

pub hash_of_ok : (std : Standard) (o : Option Bytes) → (r : Returned Bytes) × (hash_of std o ≡ ok r)
hash_of_ok std none = (failed airdrop_err_io, refl)
hash_of_ok std (some file) = (value (std.sha256 file), refl)

module _ (lib : OpenSsl) (std : Standard) (doc : Documented lib std) (malloc : Malloc)
    (serves : Serves malloc) (disk : FileSystem) (path : Bytes) (is_text : IsText path)
    (size : (file : Bytes) → open_in disk path ≡ some file → length (std.sha256 file) ≡ 32) where
  module _ (m : Memory) (fresh : IsFresh m) where
    abbrev m1 : Memory
    m1 = with_bytes m zeros

    abbrev m2 : Memory
    m2 = with_bytes m1 (path ++ 0 ∷ [])

    fresh1 : IsFresh m1
    fresh1 = with_bytes-IsFresh m zeros fresh

    abbrev behind_name : ℕ → ℕ → Go lib malloc (Returned Bytes)
    behind_name digest name = do
      status ← airdrop_sha256_file lib malloc disk (some name) (some digest)
      if_ok lib malloc status (reading lib malloc (load (some digest) 32))

    abbrev behind_digest : ℕ → Go lib malloc (Returned Bytes)
    behind_digest digest = with_string lib malloc path (behind_name digest)

    behind_name-Touches :
        (w : lib.World)
        → let n = m.next in
          (w' : lib.World) × Leaves lib.World
            (Touches n (suc n))
            (behind_name n (suc n) (w, m2))
            m2
            (hash_of std (open_in disk path))
            w'
    unfolding if_ok
    behind_name-Touches w =
        let n = m.next in
        let at_digest : m2.blocks n ≡ some zeros = unfold write in ground arith in
        let at_name : m2.blocks (suc n) ≡ some (path ++ 0 ∷ []) = unfold write in ground arith in
        let named = load_string-text m2 (suc n) path at_name is_text in
        let fresh2 = with_bytes-IsFresh m1 (path ++ 0 ∷ []) fresh1 in
        elim (Option-cases (open_in disk path)) [
          | inl closed ↦
              let called =
                airdrop_sha256_file_unopened lib std doc malloc disk (suc n) n path m2 w named
                  closed in
              (
                w,
                (m2, rw (called, closed) refl, record { blocks = λ a side. refl; fresh = fresh2 }),
              )
          | inr (file, opened) ↦
              let (w', called) =
                airdrop_sha256_file-sha256 lib std doc malloc disk (suc n) n path file zeros m2 w
                  named opened at_digest (zeros_size ∙ sym (size file opened)) in
              let m3 : Memory = record m2 { blocks = write m2.blocks n (some (std.sha256 file)) } in
              let there = write_self m2.blocks n (some (std.sha256 file)) in
              (
                w',
                (
                  m3,
                  rw (called, opened, load_array m3 n (std.sha256 file) there (size file opened))
                      refl,
                  record {
                    blocks = λ a side. unfold write in ground (arith, side);
                    fresh = λ a h. unfold write in ground (arith, fresh2 a h);
                  },
                ),
              )
        ]

    pub sha256_file-Restores :
        (w : lib.World)
        → (w' : lib.World) × Leaves lib.World Restores
            (sha256_file lib malloc disk path (w, m))
            m
            (hash_of std (open_in disk path))
            w'
    unfolding sha256_file
    sha256_file-Restores w =
        let n = m.next in
        let r = hash_of std (open_in disk path) in
        let (w', inner) = behind_name-Touches w in
        let (m', run, touched) =
          with_block_touched lib malloc n zeros behind_digest m w w' r fresh (
            with_string_untouched lib malloc n (suc n) path (behind_name n) m1 w w' r serves fresh1
              (omega arith) inner) in
        (w', (m', run, Touches-Restores n m m' touched))
