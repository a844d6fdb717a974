-- ===== src/Files.antt =====
-- The files that the core reads and writes through `std::filesystem`, `std::ifstream`,
-- `std::ofstream` and `std::fstream`. A path is its bytes. Of a write to a file that is open, a
-- front part reaches the file.
pub mod Blocks
pub mod Write
use off_drop.Base.{ℕ, zero, suc, ◌+◌, ◌-◌, ◌^◌, ◌≤◌, ◌<◌, ◌≡◌, refl, sym, ap, ◌∙◌, ◌≢◌, arith}
use off_drop.Base.{Bool, true, false, ◌&&◌, List, [], ◌∷◌, ◌++◌, length, take, drop, replicate}
use off_drop.Base.{take_of_length-le}
use off_drop.Base.{Option, none, some, ltb, leb, ◌==◌, if◌then◌else◌}
use off_drop.Protocol.{Bytes}

-- `==` of two `std::vector<uint8_t>`, and of two paths.
unfoldable pub bytes_eq : Bytes → Bytes → Bool
bytes_eq [] [] = true
bytes_eq [] (y ∷ ys) = false
bytes_eq (x ∷ xs) [] = false
bytes_eq (x ∷ xs) (y ∷ ys) = x == y && bytes_eq xs ys

pub bytes_eq_refl : (xs : Bytes) → bytes_eq xs xs ≡ true
unfolding bytes_eq
bytes_eq_refl [] = refl
bytes_eq_refl (x ∷ xs) = ground (arith, bytes_eq_refl xs)

pub bytes_eq→eq : (xs ys : Bytes) → bytes_eq xs ys ≡ true → xs ≡ ys
unfolding bytes_eq
bytes_eq→eq [] [] h = refl
bytes_eq→eq [] (y ∷ ys) h = cc
bytes_eq→eq (x ∷ xs) [] h = cc
bytes_eq→eq (x ∷ xs) (y ∷ ys) h = ground (arith, bytes_eq→eq xs ys)

pub bytes_eq-false→ne : (xs ys : Bytes) → bytes_eq xs ys ≡ false → xs ≢ ys
bytes_eq-false→ne xs ys h e = cc (sym h ∙ ap (bytes_eq xs) (sym e) ∙ bytes_eq_refl xs)

-- The contents of the files that exist, the paths that may be opened, and how many bytes of a write
-- reach the file at a path, which holds some bytes, at a place: the disk may be full.
pub record FileSystem : Type 0 where
  pub content : Bytes → Option Bytes
  pub can_read : Bytes → Bool
  pub can_write : Bytes → Bool
  pub takes : Bytes → Bytes → ℕ → Bytes → ℕ

-- The file at the path opens for writing, and each write reaches it as a whole.
pub record IsWritable (fs : FileSystem) (path : Bytes) : Type 0 where
  pub opens : fs.can_write path ≡ true
  pub whole : (old : Bytes) (at : ℕ) (bytes : Bytes) → length bytes ≤ fs.takes path old at bytes

unfoldable pub put_content : FileSystem → Bytes → Bytes → FileSystem
put_content fs path bytes = record fs {
  content = λ other. if bytes_eq path other then some bytes else fs.content other;
}

-- `std::ifstream f(path, std::ios::binary)`
unfoldable pub open_in : FileSystem → Bytes → Option Bytes
open_in fs path = if fs.can_read path then fs.content path else none

-- `std::ofstream f(path, std::ios::binary | std::ios::trunc)` creates or empties the file.
unfoldable pub open_trunc : FileSystem → Bytes → Option FileSystem
unfolding put_content
open_trunc fs path = if fs.can_write path then some (put_content fs path []) else none

-- `std::fstream f(path, in | out)` wants the file to be there.
unfoldable pub open_in_out : FileSystem → Bytes → Option Bytes
open_in_out fs path = if fs.can_read path && fs.can_write path then fs.content path else none

-- An input stream: what is left to read, and whether no read has fallen short.
pub record Stream : Type 0 where
  pub unread : Bytes
  pub good : Bool

-- `f.read(buf, n)`: the bytes read, whose number is `f.gcount()`, and the stream behind them.
unfoldable pub read_block : ℕ → Stream → Bytes × Stream
read_block n s =
    (take n s.unread, record { unread = drop n s.unread; good = leb n (length s.unread) })

-- `f.seekp(at); f.write(bytes)`: a gap behind the end is filled with zeros, and nothing is written
-- where there is nothing to write.
unfoldable pub write_at : Bytes → ℕ → Bytes → Bytes
write_at file at [] = file
write_at file at (b ∷ bytes) =
    (take at (file ++ replicate (at - length file) 0) ++ b ∷ bytes)
    ++ drop (at + length (b ∷ bytes)) file

-- The same on the open file at `path`, which holds `file`: what reaches it of the bytes.
unfoldable pub write_to : FileSystem → Bytes → Bytes → ℕ → Bytes → Bytes
write_to fs path file at bytes = write_at file at (take (fs.takes path file at bytes) bytes)

pub write_to-write_at :
    (fs : FileSystem) (path file : Bytes) (at : ℕ) (bytes : Bytes)
    → IsWritable fs path
    → write_to fs path file at bytes ≡ write_at file at bytes
unfolding write_to
write_to-write_at fs path file at bytes v =
    ap (write_at file at) (take_of_length-le _ bytes (v.whole file at bytes))

pub put_content-IsWritable :
    (fs : FileSystem) (path bytes other : Bytes)
    → IsWritable fs other
    → IsWritable (put_content fs path bytes) other
unfolding put_content
put_content-IsWritable fs path bytes other v = record { opens = v.opens; whole = v.whole }
