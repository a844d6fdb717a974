-- ===== src/Tests/FileData.antt =====
-- A file of three bytes on a disk, and two transports.
use off_drop.Base.{◌≡◌, ◌≢◌, refl, arith, [], ◌∷◌, All, length, true, none, some, if◌then◌else◌}
use off_drop.Protocol.{Bytes, IsByte}
use off_drop.Files.{FileSystem, IsWritable, open_in, bytes_eq, bytes_eq-false→ne}
use off_drop.Chunking.{Machine, FileReceiver}
use off_drop.Chunking.Blocks.{IsSendable}
use off_drop.Transport.{Store, loopback_transport}
use off_drop.Tests.Toy.{toy_ssl}

abbrev pub key : Bytes
key = 42 ∷ []

abbrev pub source_path : Bytes
source_path = b'/' ∷ b's' ∷ []

abbrev pub output_path : Bytes
output_path = b'/' ∷ b'd' ∷ []

abbrev pub three_bytes : Bytes
three_bytes = 1 ∷ 2 ∷ 3 ∷ []

abbrev pub disk : FileSystem
disk = record {
  content = λ path. if bytes_eq path source_path then some three_bytes else none;
  can_read = λ path. true;
  can_write = λ path. true;
  takes = λ path file at bytes. length bytes;
}

abbrev pub machine : Machine toy_ssl
machine = record { ssl = 0; disk = disk }

pub three_bytes-IsByte : All IsByte three_bytes
three_bytes-IsByte = (omega arith, (omega arith, (omega arith, tt)))

pub sendable : IsSendable three_bytes
sendable = omega arith

pub writable : IsWritable disk output_path
writable = record { opens = refl; whole = λ file at bytes. omega arith }

pub source_content : disk.content source_path ≡ some three_bytes
unfolding bytes_eq
source_content = refl

pub source_opens : open_in disk source_path ≡ some three_bytes
unfolding bytes_eq open_in
source_opens = refl

pub apart : output_path ≢ source_path
unfolding bytes_eq
apart = bytes_eq-false→ne output_path source_path refl

abbrev pub transports : Store (Machine toy_ssl × FileReceiver)
transports = loopback_transport (b'a' ∷ []) ∷ loopback_transport (b'b' ∷ []) ∷ []
