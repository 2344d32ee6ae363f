-- ===== src/Fs/File/Tests.antt =====
-- A description with O_APPEND whose cursor is at the start of its file.
use saba_os.Base.{ℕ, ◌+◌, ◌≡◌, ◌++◌, refl, true, false, Buffer, cells, min, ok, arith}
use saba_os.Fs.Description.{rdwr}
use saba_os.Fs.Tmpfs.{Node}
use saba_os.Fs.Tmpfs.Content.{IsValid}
use saba_os.Fs.File.{File, tmpfs, read_file, write_file}
use saba_os.Fs.File.Stream.{content, write_file_appends, read_file_lem}

abbrev old : Buffer ℕ
old i = i + 1

abbrev input : Buffer ℕ
input i = i + 65

abbrev sample : File Node
sample = record {
  vnode = record { is_directory = false; size = 6; capacity = 8; storage = old };
  cursor = 4;
  flags = record { mode = rdwr; nonblock = false; append = true };
}

sample-IsValid : IsValid sample.vnode
sample-IsValid = record { file = refl; fits = omega arith; small = omega arith }

write_file_appends_example :
    let (d', r) = write_file (tmpfs old) sample input 3 in
    (r ≡ ok 3)
    × (content d'.vnode ≡ content sample.vnode ++ cells input 0 3)
    × (d'.cursor ≡ d'.vnode.size)
    × IsValid d'.vnode
write_file_appends_example =
    write_file_appends old sample input 3 sample-IsValid refl (omega arith) (omega arith)

read_file_example :
    let (d', r, buf') = read_file (tmpfs old) sample input 9 in
    let k = min 9 2 in
    (r ≡ ok k) × (cells buf' 0 k ≡ cells old 4 k) × (d'.cursor ≡ 4 + k) × (d'.vnode ≡ sample.vnode)
read_file_example = read_file_lem old sample input 9 sample-IsValid (omega arith) (omega arith)
