-- ===== src/Chunking/Offer.antt =====
-- `PrepareFileOffer` of core/src/chunking.cpp over a library that keeps to its manual.
use off_drop.Base.{◌≡◌, refl, length, some}
use off_drop.Base.Result.{ok}
use off_drop.Protocol.{Bytes, FileOfferPayload}
use off_drop.Files.{open_in}
use off_drop.OpenSsl.{OpenSsl}
use off_drop.OpenSsl.Documented.{Standard, Documented}
use off_drop.Crypto.Digest.{sha256_file-sha256}
use off_drop.Chunking.{Machine, chunk_count, filename, prepare_file_offer}

-- The offer of a file: its name without the folders, its size, its hash and the number of chunks.
abbrev pub offer_of : Standard → Bytes → Bytes → FileOfferPayload
offer_of std path file = record {
  file_name = filename path;
  file_size = length file;
  sha256 = std.sha256 file;
  total_chunks = chunk_count (length file);
}

module _ (lib : OpenSsl) (std : Standard) (doc : Documented lib std) where
  -- `prepare_file_offer` of a file that exists and can be opened, over a library that keeps to its
  -- manual, gives the name without the folders, the size, the SHA-256 and the number of chunks. It
  -- changes no file.
  pub prepare_file_offer-offer_of :
      (path file : Bytes) (m : Machine lib)
      → m.disk.content path ≡ some file
      → open_in m.disk path ≡ some file
      → (w' : lib.World) × (prepare_file_offer lib path m
          ≡ (ok (offer_of std path file), record m { ssl = w' }))
  unfolding prepare_file_offer
  prepare_file_offer-offer_of path file m there opened =
      let (w', hashed, _) = sha256_file-sha256 lib std doc m.disk path file m.ssl opened in
      (w', rw (there, hashed) refl)
