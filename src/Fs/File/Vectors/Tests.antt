-- ===== src/Fs/File/Vectors/Tests.antt =====
-- A vectored write of three vectors, one of them empty.
use saba_os.Base.{ℕ, ◌+◌, ◌≡◌, refl, false, List, [], ◌∷◌, Buffer, arith}
use saba_os.Fs.Tmpfs.{Node, write}
use saba_os.Fs.File.{tmpfs}
use saba_os.Fs.File.Stream.{content}
use saba_os.Fs.File.Vectors.{Iovec, writev}
use saba_os.Fs.File.Vectors.Gather.{total, joined, writev_equals_write}

abbrev letters : Buffer ℕ
letters i = i + 65

abbrev file : Node
file = record { is_directory = false; size = 6; capacity = 8; storage = letters }

abbrev vectors : List Iovec
vectors =
    record { iov_base = letters; iov_len = 2 }
    ∷ record { iov_base = letters; iov_len = 0 }
    ∷ record { iov_base = letters; iov_len = 3 }
    ∷ []

writev_equals_write_example :
    let (n1, r1) = writev (tmpfs letters) file vectors 4 in
    let (n2, r2) = write letters file (joined vectors) (total vectors) 4 in
    (r1 ≡ r2) × (content n1 ≡ content n2)
unfolding total
writev_equals_write_example =
    writev_equals_write letters file vectors 4
      (record { file = refl; fits = omega arith; small = omega arith }) (omega arith) (omega arith)
      (omega arith)
