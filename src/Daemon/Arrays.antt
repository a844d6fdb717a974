-- ===== src/Daemon/Arrays.antt =====
-- The local arrays of cmd/daemon/bridge.go that a C function writes to, and its C strings.
use off_drop.Base.{ℕ, suc, ◌+◌, ◌≤◌, ◌<◌, ◌≡◌, ◌≢◌, ◌⊎◌, inl, inr, refl, sym, ap, ◌∙◌, arith}
use off_drop.Base.{[], ◌∷◌, ◌++◌, length, none, some, ltb, ltb→lt, ltb→le, Bool-cases}
use off_drop.Base.Result.{Result}
use off_drop.Protocol.{Bytes}
use off_drop.OpenSsl.{OpenSsl}
use off_drop.Memory.{Memory, Malloc, write}
use off_drop.Memory.Writes.{write_self, write_other, free_block_lem}
use off_drop.CApi.Handing.{Serves, IsFresh}
use off_drop.Daemon.{Go, finally, with_bytes, with_block, with_string}
use off_drop.Daemon.Locals.{Restores, Leaves}
use native.Mathlib.Decide.{ℕ_discrete}

-- Every block is as it was but for those from `lo` on and below `hi`, and those to come are fresh.
pub record Touches (lo hi : ℕ) (m m' : Memory) : Type 0 where
  pub blocks : (a : ℕ) → (a < lo) ⊎ (hi ≤ a) → m'.blocks a ≡ m.blocks a
  pub fresh : IsFresh m'

pub Touches-Restores : (n : ℕ) (m m' : Memory) → Touches n n m m' → Restores m m'
Touches-Restores n m m' v = record { blocks = λ a. v.blocks a (below a); fresh = v.fresh }
  where
    below : (a : ℕ) → (a < n) ⊎ (n ≤ a)
    below a = elim (Bool-cases (ltb a n)) [
      | inl h ↦ inl (ltb→lt a n h)
      | inr h ↦ inr (ltb→le a n h)
    ]

-- A local goes out of scope. If it was touched, `hi` comes down to its number.
drop_local :
    (lo hi hi' : ℕ) (m m' : Memory) (bytes : Bytes)
    → IsFresh m
    → ((a : ℕ) → m.next ≢ a → hi ≤ a → hi' ≤ a)
    → Touches lo hi' (with_bytes m bytes) m'
    → Touches lo hi m (record m' { blocks = write m'.blocks m.next none })
drop_local lo hi hi' m m' bytes fresh down v = record {
  blocks = λ a side. elim (ℕ_discrete m.next a) [
    | yes same ↦
        ap (write m'.blocks m.next none) (sym same)
        ∙ write_self m'.blocks m.next none
        ∙ sym (fresh m.next (omega arith))
        ∙ ap m.blocks same
    | no ne ↦
        write_other m'.blocks m.next a none ne
        ∙ v.blocks a (elim side [ inl low ↦ inl low | inr high ↦ inr (down a ne high) ])
        ∙ write_other m.blocks m.next a (some bytes) ne
  ];
  fresh = λ a k. unfold write in ground (arith, v.fresh a k);
}

module _ (lib : OpenSsl) (malloc : Malloc) {A : Type 0} (lo : ℕ) where
  pub with_block_touched :
      (bytes : Bytes) (body : ℕ → Go lib malloc A) (m : Memory) (w w' : lib.World) (r : Result A)
      → IsFresh m
      → let m1 = with_bytes m bytes in
        Leaves lib.World (Touches lo (suc m.next)) (body m.next (w, m1)) m1 r w'
        → Leaves lib.World (Touches lo m.next) (with_block lib malloc bytes body (w, m)) m r w'
  unfolding with_block
  with_block_touched bytes body m w w' r fresh (m', run, v) = (
    record m' { blocks = write m'.blocks m.next none },
    rw run refl,
    drop_local lo m.next (suc m.next) m m' bytes fresh (λ a ne h. omega (arith, ne, h)) v,
  )

  module _ (hi : ℕ) where
    pub with_block_untouched :
        (bytes : Bytes) (body : ℕ → Go lib malloc A) (m : Memory) (w w' : lib.World) (r : Result A)
        → IsFresh m
        → let m1 = with_bytes m bytes in
          Leaves lib.World (Touches lo hi) (body m.next (w, m1)) m1 r w'
          → Leaves lib.World (Touches lo hi) (with_block lib malloc bytes body (w, m)) m r w'
    unfolding with_block
    with_block_untouched bytes body m w w' r fresh (m', run, v) = (
      record m' { blocks = write m'.blocks m.next none },
      rw run refl,
      drop_local lo hi hi m m' bytes fresh (λ a ne h. h) v,
    )

    -- A C string, which is freed again.
    pub with_string_untouched :
        (text : Bytes) (body : ℕ → Go lib malloc A) (m : Memory) (w w' : lib.World) (r : Result A)
        → Serves malloc
        → IsFresh m
        → hi ≤ m.next
        → let m1 = with_bytes m (text ++ 0 ∷ []) in
          Leaves lib.World (Touches lo hi) (body m.next (w, m1)) m1 r w'
          → Leaves lib.World (Touches lo hi) (with_string lib malloc text body (w, m)) m r w'
    unfolding with_string finally
    with_string_untouched text body m w w' r serves fresh h (m', run, v) =
        let (raw, got, _) = serves (length text + 1) m.next in
        let there : m'.blocks m.next ≡ some (text ++ 0 ∷ []) =
          v.blocks m.next (inr h) ∙ write_self m.blocks m.next (some (text ++ 0 ∷ [])) in
        let freed = free_block_lem m' m.next (text ++ 0 ∷ []) in
        (
          record m' { blocks = write m'.blocks m.next none },
          rw (got, with_string, run, there, freed) refl,
          drop_local lo hi hi m m' (text ++ 0 ∷ []) fresh (λ a ne h. h) v,
        )
