-- ===== src/Tests/DiskExamples.antt =====
-- core/src/chunking.cpp at a file of three bytes on a disk that takes no byte of a write, over the
-- library of Tests/Toy.antt.
use off_drop.Base.{◌≡◌, refl, [], ◌∷◌, false, some, replicate}
use off_drop.Base.Result.{ok}
use off_drop.Protocol.{Bytes}
use off_drop.Files.{FileSystem, open_in, bytes_eq}
use off_drop.Chunking.{
  Machine, FileReceiver, chunk_count, file_receiver, is_complete, verify_integrity,
}
use off_drop.Chunking.Assembly.{receive_all}
use off_drop.Chunking.Refine.{take_all, has_all}
use off_drop.Chunking.AnyDisk.{receive_all_short_writes}
use off_drop.Tests.Toy.{toy_ssl, toy_standard, toy-Documented}
use off_drop.Tests.FileData.{key, output_path, three_bytes, disk, machine, sendable}
use off_drop.Tests.FileExamples.{only_chunk, only_chunk-IsGenuine}

abbrev full_disk : FileSystem
full_disk = record disk { takes = λ path file at bytes. 0 }

abbrev full_machine : Machine toy_ssl
full_machine = record machine { disk = full_disk }

receive_all_short_writes_example :
    let marks = take_all (only_chunk ∷ []) (replicate (chunk_count 3) false) in
    (r r' : FileReceiver) × (m0 m' m'' : Machine toy_ssl) × (d : Bytes) × (file_receiver toy_ssl
        output_path 3
        (chunk_count 3)
        three_bytes
        full_machine
      ≡ (ok r, m0))
    × (receive_all toy_ssl key (only_chunk ∷ []) (m0, r) ≡ (ok tt, (m', r')))
    × (is_complete r' ≡ has_all marks)
    × (open_in m'.disk output_path ≡ some d)
    × (verify_integrity toy_ssl r' m' ≡ (ok (bytes_eq d three_bytes), m''))
receive_all_short_writes_example =
    receive_all_short_writes toy_ssl toy_standard toy-Documented key three_bytes output_path
      full_machine (only_chunk ∷ []) sendable refl refl (only_chunk-IsGenuine, tt)
