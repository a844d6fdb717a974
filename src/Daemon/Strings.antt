-- ===== src/Daemon/Strings.antt =====
-- What a C function reads of a Go string.
use off_drop.Base.{
  ℕ, ◌≡◌, ◌≢◌, refl, arith, [], ◌∷◌, ◌++◌, All, some, ne→==, ◌==◌, ◌&&◌, not, Bool, true,
}
use off_drop.Base.Result.{ok}
use off_drop.Protocol.{Bytes}
use off_drop.Memory.{Memory, load_string, before_zero}

-- A text without a zero in it.
abbrev pub IsText : Bytes → Type 0
IsText = All λ b. b ≢ 0

abbrev pub has_no_zero : Bytes → Bool
has_no_zero [] = true
has_no_zero (b ∷ text) = not (b == 0) && has_no_zero text

pub has_no_zero-IsText : (text : Bytes) → has_no_zero text ≡ true → IsText text
has_no_zero-IsText [] h = tt
has_no_zero-IsText (b ∷ text) h =
    (λ e. ground (arith, h, e), has_no_zero-IsText text (ground (arith, h)))

before_zero-append : (text : Bytes) → IsText text → before_zero (text ++ 0 ∷ []) ≡ ok text
unfolding before_zero
before_zero-append [] _ = refl
before_zero-append (b ∷ text) (ne, rest) = rw (ne→== b 0 ne, before_zero-append text rest) refl

pub load_string-text :
    (m : Memory) (a : ℕ) (text : Bytes)
    → m.blocks a ≡ some (text ++ 0 ∷ [])
    → IsText text
    → load_string (some a) m ≡ ok text
unfolding load_string
load_string-text m a text there v = rw (there, load_string) (before_zero-append text v)
