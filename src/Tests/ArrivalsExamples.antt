-- ===== src/Tests/ArrivalsExamples.antt =====
-- core/src/chunking.cpp at a file of three bytes whose chunk comes once and twice, over the library
-- of Tests/Toy.antt.
use off_drop.Base.{◌≡◌, refl, arith, ◌∷◌, [], some}
use off_drop.Base.Result.{ok}
use off_drop.Files.{open_in_out}
use off_drop.Chunking.{Machine, FileReceiver, chunk_count, file_receiver, is_complete}
use off_drop.Chunking.Arrivals.{SameIndices, has_index, marks_of, receive_all-Arrivals}
use off_drop.Chunking.Assembly.{receive_all}
use off_drop.Chunking.Canvas.{canvas}
use off_drop.Chunking.Refine.{has_all}
use mathlib.Core.Quot
use off_drop.Tests.Toy.{toy_ssl}
use off_drop.Tests.FileData.{key, output_path, three_bytes, machine, sendable, writable}
use off_drop.Tests.FileExamples.{only_chunk, only_chunk-IsGenuine}

once_twice-SameIndices : SameIndices (only_chunk ∷ []) (only_chunk ∷ only_chunk ∷ [])
unfolding has_index
once_twice-SameIndices i = ground arith

receive_all-Arrivals_example :
    let marks = marks_of three_bytes (Quot.mk (only_chunk ∷ [])) in
    (r rx ry : FileReceiver) × (m0 mx my : Machine toy_ssl) × (file_receiver toy_ssl output_path 3
        (chunk_count 3)
        three_bytes
        machine
      ≡ (ok r, m0))
    × (receive_all toy_ssl key (only_chunk ∷ []) (m0, r) ≡ (ok tt, (mx, rx)))
    × (receive_all toy_ssl key (only_chunk ∷ only_chunk ∷ []) (m0, r) ≡ (ok tt, (my, ry)))
    × (open_in_out mx.disk output_path ≡ some (canvas marks three_bytes))
    × (open_in_out my.disk output_path ≡ some (canvas marks three_bytes))
    × (is_complete rx ≡ has_all marks)
    × (is_complete ry ≡ has_all marks)
receive_all-Arrivals_example =
    receive_all-Arrivals toy_ssl key three_bytes sendable output_path three_bytes machine
      (only_chunk ∷ []) (only_chunk ∷ only_chunk ∷ []) refl writable (only_chunk-IsGenuine, tt)
      (only_chunk-IsGenuine, (only_chunk-IsGenuine, tt)) once_twice-SameIndices
