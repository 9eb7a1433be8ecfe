-- ===== src/Sysfile/Tests.antt =====
-- The theorems about kernel/src/fs/sysfile.c for a process that opens a directory and enters it.
use omega_os.Base.{
  ℕ, ◌+◌, ◌<◌, ltb, if◌then◌else◌, Option, ◌≡◌, refl, true, none, some, [], ◌∷◌, length, arith, ap,
}
use omega_os.Base.Run.{ok, pure, ◌>>=◌, ◌>>◌}
use omega_os.Ide.{Buffer}
use omega_os.Path.{
  Text, separator, assemble, join, normalize_path, is_relative, base, tokens, tokens_from,
  push_tokens, push_token, same_text, pop,
}
use omega_os.Vfs.{
  Ssize, Node, Handlers, done, vfs_open_file, path_names, path_depth, cut_from, first, vfs_finddir,
  vfs_open, open_below, vfs_read,
}
use omega_os.Sysfile.{
  process_add_file, add_open, sys_open, sys_chdir, set_cwd, take, sys_read, put_file, set_file,
}
use omega_os.Sysfile.Directory.{State}
use omega_os.Sysfile.Calls.{Calls, start, opens, enters, walked}

-- The first byte of a buffer.
abbrev first_byte : Option Buffer → ℕ
first_byte none = 0
first_byte (some buf) = buf 0

abbrev observe : Ssize × Option Buffer → Ssize × ℕ
observe r = (r.0, first_byte r.1)

abbrev root : Node
root = record { driver = 0; inode = 2; flags = 2; attr = 0; size = 0; offset = 0 }

abbrev below : Node
below = record root { inode = 3 }

abbrev handlers : ℕ → Handlers ℕ
handlers driver = record {
  read = some (λ node offset size buf d.
      ok
        (
          done size,
          record node { offset = offset + size },
          λ i. if ltb i size then offset + i else buf i,
        )
        d);
  write = none;
  open_node = none;
  close_node = none;
  finddir = some (λ node name d. ok (some below) d);
  readdir = none;
  create = none;
  mkdir = none;
  delete = none;
}

-- A process in the root directory, with no open file.
abbrev before : State handlers root
before = record { fdt = []; cwd = separator ∷ []; id = 0x105; drivers = 0 }

abbrev a : Text
a = 97 ∷ []

abbrev inside : State handlers root
inside = record { fdt = below ∷ []; cwd = separator ∷ a; id = 0x105; drivers = 0 }

opens_a :
    sys_open handlers root (some a) 0 before ≡ ok (done 0) (record before { fdt = below ∷ [] })
unfolding sys_open add_open process_add_file vfs_open_file path_names path_depth cut_from first
    open_below vfs_finddir vfs_open normalize_path is_relative base tokens tokens_from push_tokens
    push_token same_text pop assemble join
opens_a = refl

enters_a : sys_chdir handlers root (some a) (record before { fdt = below ∷ [] }) ≡ ok 0 inside
unfolding sys_chdir set_cwd take vfs_open_file path_names path_depth cut_from first open_below
    vfs_finddir vfs_open normalize_path is_relative base tokens tokens_from push_tokens push_token
    same_text pop assemble join
enters_a = refl

a-short : (p : Text) → normalize_path true true true (separator ∷ []) a ≡ some p → length p < 256
unfolding normalize_path is_relative base tokens tokens_from push_tokens push_token same_text pop
    assemble join
a-short p e =
    let two : some (separator ∷ a) ≡ some p = e in
    let same : separator ∷ a ≡ p = cc in omega (arith, ap length same)

history : Calls handlers root before inside
history = opens (some a) 0 (done 0) opens_a (enters a 0 a-short enters_a start)

-- "//a".
two_separators : walked handlers root history (separator ∷ []) ≡ separator ∷ separator ∷ a
unfolding walked is_relative history
two_separators = refl

-- A file of which 3 bytes have been read.
abbrev reading : State handlers root
reading = record before { fdt = record below { flags = 1; offset = 3 } ∷ [] }

-- Two reads: the second goes on where the first has ended.
reads_on :
    (do
      sys_read handlers root 0 (some (λ i. 0)) 4
      r ← sys_read handlers root 0 (some (λ i. 0)) 2
      pure (observe r))
      reading
    ≡ ok (done 2, 7) (record reading { fdt = record below { flags = 1; offset = 9 } ∷ [] })
unfolding sys_read vfs_read put_file set_file
reads_on = refl
