-- ===== src/Tests/ReturnsExamples.antt =====
-- core/src/c_api.cpp over a `malloc` that fails once, with the library of Tests/Toy.antt and the
-- memory of Tests/MemoryExamples.antt.
use off_drop.Base.{ℕ, ◌≤◌, ◌≡◌, refl, arith, length, length-replicate, none, some, replicate}
use off_drop.Base.{Bool-cases, inl, inr, ◌==◌, if◌then◌else◌, subst}
use off_drop.Protocol.{Bytes}
use off_drop.Memory.{Malloc, load, load_block}
use off_drop.CApi.{airdrop_encrypt_chunk, airdrop_decrypt_chunk}
use off_drop.CApi.Returns.{
  Gives, ComesBack, airdrop_encrypt_chunk_returns, airdrop_decrypt_chunk_returns,
}
use off_drop.Tests.Toy.{toy_ssl}
use off_drop.Tests.ChannelExamples.{toy-WritesWithin}
use off_drop.Tests.MemoryExamples.{memory}

-- The second block of the call cannot be had.
abbrev moody_malloc : Malloc
moody_malloc n k = if k == 6 then none else some (replicate n 0)

moody_malloc-Gives : Gives moody_malloc
moody_malloc-Gives n k raw e = elim (Bool-cases (k == 6)) [
  | inl failed ↦ absurd (nothing (rw failed at e))
  | inr served ↦ as_long (rw served at e)
]
  where
    nothing : ¬ (none ≡ some raw)
    nothing e = cc e

    as_long : some (replicate n 0) ≡ some raw → n ≤ length raw
    as_long e =
        let same : replicate n 0 ≡ raw = cc e in
        subst (λ (t : Bytes). n ≤ length t) same (omega (arith, length-replicate {A = ℕ} n 0))

airdrop_encrypt_chunk_returns_example : ComesBack toy_ssl moody_malloc moody_malloc-Gives (
    airdrop_encrypt_chunk toy_ssl moody_malloc
      (some 0)
      (some 1)
      3
      (some 0)
      (some 1)
      (some 2)
      (0, memory))
unfolding load load_block
airdrop_encrypt_chunk_returns_example =
    airdrop_encrypt_chunk_returns toy_ssl moody_malloc moody_malloc-Gives toy-WritesWithin (some 0)
      (some 1) (some 0) (some 1) (some 2) 3 0 memory (_, refl) (_, refl) (_, refl) (_, refl)
      (_, refl)

-- The tag is read from a block of another.
airdrop_decrypt_chunk_returns_example : ComesBack toy_ssl moody_malloc moody_malloc-Gives (
    airdrop_decrypt_chunk toy_ssl moody_malloc
      (some 0)
      (some 2)
      12
      (some 1)
      3
      (some 4)
      16
      (some 3)
      (0, memory))
unfolding load load_block
airdrop_decrypt_chunk_returns_example =
    airdrop_decrypt_chunk_returns toy_ssl moody_malloc moody_malloc-Gives toy-WritesWithin (some 0)
      (some 2) (some 1) (some 4) (some 3) 12 3 16 0 memory (_, refl) (_, refl) (_, refl) (_, refl)
      (_, refl)
