-- ===== src/Daemon/Locals.antt =====
-- The blocks and structures behind the local variables of cmd/daemon/bridge.go: what they leave of
-- the memory when they go out of scope.
use off_drop.Base.{ℕ, ◌≤◌, ◌≡◌, refl, sym, ap, ◌∙◌, arith}
use off_drop.Base.{[], none, some}
use off_drop.Base.Result.{Result}
use off_drop.Protocol.{Bytes}
use off_drop.OpenSsl.{OpenSsl}
use off_drop.Memory.{Memory, Malloc, write}
use off_drop.Memory.Writes.{write_self, write_other}
use off_drop.CApi.Handing.{IsFresh}
use off_drop.Daemon.{Go, with_bytes, with_empty, with_block, with_slot}
use native.Mathlib.Decide.{ℕ_discrete}

-- Every block is as it was, and those to come are fresh.
pub record Restores (m m' : Memory) : Type 0 where
  pub blocks : (a : ℕ) → m'.blocks a ≡ m.blocks a
  pub fresh : IsFresh m'

-- One block that was not there before stays, with nothing in it.
pub record Leaks (m m' : Memory) : Type 0 where
  pub lost : ℕ
  pub new : m.next ≤ lost
  pub was : m.blocks lost ≡ none
  pub stays : m'.blocks lost ≡ some []

-- A relation that holds across the life of a local variable when it holds within.
pub record Scoped (R : Memory → Memory → Type 0) : Type 0 where
  pub block :
      (m m' : Memory) (bytes : Bytes)
      → IsFresh m
      → R (with_bytes m bytes) m'
      → R m (record m' { blocks = write m'.blocks m.next none })
  pub slot :
      (m m' : Memory)
      → IsFresh m
      → R (with_empty m) m'
      → R m (record m' { buffers = write m'.buffers m.next none })

pub with_bytes-IsFresh : (m : Memory) (bytes : Bytes) → IsFresh m → IsFresh (with_bytes m bytes)
with_bytes-IsFresh m bytes fresh a h =
    write_other m.blocks m.next a (some bytes) (omega arith) ∙ fresh a (omega arith)

pub with_empty-IsFresh : (m : Memory) → IsFresh m → IsFresh (with_empty m)
with_empty-IsFresh m fresh a h = fresh a (omega arith)

pub Restores-Scoped : Scoped Restores
Restores-Scoped = record {
  block = λ m m' bytes fresh v. record {
    blocks = λ a. elim (ℕ_discrete m.next a) [
      | yes same ↦
          ap (write m'.blocks m.next none) (sym same)
          ∙ write_self m'.blocks m.next none
          ∙ sym (fresh m.next (omega arith))
          ∙ ap m.blocks same
      | no ne ↦
          write_other m'.blocks m.next a none ne
          ∙ v.blocks a
          ∙ write_other m.blocks m.next a (some bytes) ne
    ];
    fresh = λ a h. unfold write in ground (arith, v.fresh a h);
  };
  slot = λ m m' fresh v. record { blocks = v.blocks; fresh = v.fresh };
}

pub Leaks-Scoped : Scoped Leaks
Leaks-Scoped = record {
  block = λ m m' bytes fresh v. record {
    lost = v.lost;
    new = omega (arith, v.new);
    was = fresh v.lost (omega (arith, v.new));
    stays = write_other m'.blocks m.next v.lost none (omega (arith, v.new)) ∙ v.stays;
  };
  slot = λ m m' fresh v. record {
    lost = v.lost;
    new = omega (arith, v.new);
    was = v.was;
    stays = v.stays;
  };
}

-- A call that comes to an end with this outcome, and with a memory to which `R` leads.
abbrev pub Leaves :
    (W : Type 0) {A : Type 0}
    → (Memory → Memory → Type 0)
    → Result A × (W × Memory)
    → Memory
    → Result A
    → W
    → Type 0
Leaves W R call m r w = (m' : Memory) × (call ≡ (r, (w, m'))) × R m m'

module _ (lib : OpenSsl) (malloc : Malloc) {R : Memory → Memory → Type 0} (scoped : Scoped R) where
  pub with_block-Leaves :
      {A : Type 0} (bytes : Bytes) (body : ℕ → Go lib malloc A) (m : Memory) (w w' : lib.World)
      (r : Result A)
      → IsFresh m
      → Leaves lib.World R (body m.next (w, with_bytes m bytes)) (with_bytes m bytes) r w'
      → Leaves lib.World R (with_block lib malloc bytes body (w, m)) m r w'
  unfolding with_block
  with_block-Leaves bytes body m w w' r fresh (m', run, v) = (
    record m' { blocks = write m'.blocks m.next none },
    rw run refl,
    scoped.block m m' bytes fresh v,
  )

  pub with_slot-Leaves :
      {A : Type 0} (body : ℕ → Go lib malloc A) (m : Memory) (w w' : lib.World) (r : Result A)
      → IsFresh m
      → Leaves lib.World R (body m.next (w, with_empty m)) (with_empty m) r w'
      → Leaves lib.World R (with_slot lib malloc body (w, m)) m r w'
  unfolding with_slot
  with_slot-Leaves body m w w' r fresh (m', run, v) =
      (record m' { buffers = write m'.buffers m.next none }, rw run refl, scoped.slot m m' fresh v)
