-- ===== src/Files/Write.antt =====
-- What `seekp` and `write` do to a file that is long enough: the bytes of the write stand in their
-- place, and no other byte changes.
use off_drop.Base.{ℕ, ◌+◌, ◌-◌, ◌≤◌, ◌<◌, ◌≡◌, sym, ap, ◌∙◌, arith}
use off_drop.Base.{[], ◌∷◌, ◌++◌, length, length-append, get_elem?, take, drop, append-nil}
use off_drop.Base.{length-take, length-drop, take-append-drop}
use off_drop.Protocol.{Bytes}
use off_drop.Files.{write_at}
use off_drop.Files.Blocks.{
  get_elem?-append_left, get_elem?-append_right, get_elem?-take, get_elem?-drop,
}

pub write_at-splice :
    (file : Bytes) (at : ℕ) (bytes : Bytes)
    → at + length bytes ≤ length file
    → write_at file at bytes ≡ (take at file ++ bytes) ++ drop (at + length bytes) file
unfolding write_at
write_at-splice file at [] h =
    let nothing : at + 0 ≡ at = omega arith in
    rw (nothing, append-nil (take at file)) (sym (take-append-drop at file))
write_at-splice file at (b ∷ bytes) h =
    let no_gap : at - length file ≡ 0 = omega arith in rw (no_gap, append-nil file)

module _ (file : Bytes) (at : ℕ) (bytes : Bytes) (fits : at + length bytes ≤ length file) where
  front_length : length (take at file ++ bytes) ≡ at + length bytes
  front_length =
      omega (arith, length-append (take at file) bytes, length-take at file (omega arith))

  pub length-write_at : length (write_at file at bytes) ≡ length file
  length-write_at =
      ap length (write_at-splice file at bytes fits)
      ∙ omega (
        arith,
        length-append (take at file ++ bytes) (drop (at + length bytes) file),
        front_length,
        length-drop (at + length bytes) file,
      )

  pub get_elem?-write_at :
      (k : ℕ) → k < length bytes → get_elem? (write_at file at bytes) (at + k) ≡ get_elem? bytes k
  get_elem?-write_at k h =
      let here = length-take at file (omega arith) in
      let place : at + k ≡ length (take at file) + k = omega (arith, here) in
      ap (λ (t : Bytes). get_elem? t (at + k)) (write_at-splice file at bytes fits)
      ∙ get_elem?-append_left (take at file ++ bytes) _ (at + k) (omega (arith, front_length))
      ∙ ap (get_elem? (take at file ++ bytes)) place
      ∙ get_elem?-append_right (take at file) bytes k

  pub get_elem?-write_at_before :
      (j : ℕ) → j < at → get_elem? (write_at file at bytes) j ≡ get_elem? file j
  get_elem?-write_at_before j h =
      ap (λ (t : Bytes). get_elem? t j) (write_at-splice file at bytes fits)
      ∙ get_elem?-append_left (take at file ++ bytes) _ j (omega (arith, front_length))
      ∙ get_elem?-append_left (take at file) bytes j
          (omega (arith, length-take at file (omega arith)))
      ∙ get_elem?-take at file j h

  pub get_elem?-write_at_behind :
      (j : ℕ) → at + length bytes ≤ j → get_elem? (write_at file at bytes) j ≡ get_elem? file j
  get_elem?-write_at_behind j h =
      let far = j - (at + length bytes) in
      let place : j ≡ length (take at file ++ bytes) + far = omega (arith, front_length) in
      let back : at + length bytes + far ≡ j = omega arith in
      ap (λ (t : Bytes). get_elem? t j) (write_at-splice file at bytes fits)
      ∙ ap (get_elem? ((take at file ++ bytes) ++ drop (at + length bytes) file)) place
      ∙ get_elem?-append_right (take at file ++ bytes) _ far
      ∙ get_elem?-drop (at + length bytes) file far
      ∙ ap (get_elem? file) back
