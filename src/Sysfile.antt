-- ===== src/Sysfile.antt =====
-- The file system calls: kernel/src/fs/sysfile.c, with `process_add_file` and `process_close_file` of
-- kernel/src/sys/process.c. The process is the current one; memory for its nodes is given.
pub mod Directory
pub mod Listing
pub mod Calls
mod Tests
use omega_os.Base.{
  ℕ, zero, suc, ◌+◌, ◌-◌, ◌*◌, ◌/◌, ◌%◌, ◌^◌, Bool, true, false, not, Option, none, some, List, [],
  ◌∷◌, ◌++◌, leb, ltb, ◌==◌, if◌then◌else◌, length, get_elem?,
}
use omega_os.Base.Run.{
  Run, ok, panicked, fault, deadlock, out_of_fuel, Cmd, pure, ◌>>=◌, ◌>>◌, gets, modify,
}
use omega_os.Ide.{Buffer}
use omega_os.Path.{Text, normalize_path}
use omega_os.Vfs.{
  Node, Handlers, Ssize, done, failed, e_perm, e_inval, is_dir, vfs_read, vfs_write, vfs_open,
  vfs_close, vfs_open_file, vfs_create, vfs_mkdir, vfs_readdir, vfs_fseek, vfs_ftell,
}

abbrev pub e_noent : ℕ
e_noent = 2

abbrev pub e_nomem : ℕ
e_nomem = 12

abbrev pub e_notdir : ℕ
e_notdir = 20

abbrev pub max_path : ℕ
max_path = 256

-- `O_CREAT`.
abbrev pub creates : ℕ → Bool
creates flags = flags / 512 % 2 == 1

-- The first bytes of a string, as `strncpy` copies them.
unfoldable pub take : ℕ → Text → Text
take zero s = []
take (suc n) [] = []
take (suc n) (x ∷ xs) = x ∷ take n xs

-- The list of open files with one of them changed.
unfoldable pub set_file : List Node → ℕ → Node → List Node
set_file [] fd node = []
set_file (n ∷ ns) zero node = node ∷ ns
set_file (n ∷ ns) (suc fd) node = n ∷ set_file ns fd node

module _ {D : Type 0} (handlers : ℕ → Handlers D) (root : Node) where
  -- The current process's table of open files, working directory and `id`, which lies behind the
  -- directory's buffer, and the drivers' state.
  pub record Files : Type 0 where
    pub fdt : List Node
    pub cwd : Text
    pub id : ℕ
    pub drivers : D

  -- A call of the virtual file system.
  abbrev pub on_drivers : {A : Type 0} → Cmd D A → Cmd Files A
  on_drivers m s = elim (m s.drivers) [
    | ok a d ↦ ok a (record s { drivers = d })
    | panicked ↦ panicked
    | fault ↦ fault
    | deadlock ↦ deadlock
    | out_of_fuel ↦ out_of_fuel
  ]

  unfoldable pub process_add_file : Node → Cmd Files Ssize
  process_add_file node s = ok (done (length s.fdt)) (record s { fdt = s.fdt ++ node ∷ [] })

  unfoldable pub process_close_file : (fd : ℕ) → Cmd Files Bool
  process_close_file fd = do
    node ← gets (λ s. get_elem? s.fdt fd)
    elim node [
      | none ↦ pure false
      | some n ↦ (do on_drivers (vfs_close handlers root false (some n)); pure true)
    ]

  -- The last steps of `sys_open`.
  unfoldable pub add_open : Node → (flags : ℕ) → Cmd Files Ssize
  add_open node flags = do
    on_drivers (vfs_open handlers root (some (record node { attr = flags })) flags)
    process_add_file (record node { attr = flags })

  -- The part of `sys_open` for a file that is missing.
  unfoldable pub create_open : Text → (flags : ℕ) → Cmd Files Ssize
  create_open path flags = if not (creates flags) then pure (failed e_noent) else (do
    cwd ← gets (λ s. s.cwd)
    ret ← on_drivers (vfs_create handlers root cwd path flags)
    if not (ret == 0) then pure (failed ret) else (do
      node ← on_drivers (vfs_open_file handlers root cwd path flags)
      elim node [ none ↦ pure (failed e_perm) | some n ↦ add_open n flags ]))

  unfoldable pub sys_open : Option Text → (flags : ℕ) → Cmd Files Ssize
  sys_open none flags = pure (failed e_inval)
  sys_open (some path) flags = do
    cwd ← gets (λ s. s.cwd)
    node ← on_drivers (vfs_open_file handlers root cwd path flags)
    elim node [ none ↦ create_open path flags | some n ↦ add_open n flags ]

  unfoldable pub sys_close : (fd : ℕ) → Cmd Files Ssize
  sys_close fd = do
    closed ← process_close_file fd
    if closed then pure (done 0) else pure (failed e_noent)

  -- The node behind the pointer in the table, when a driver has changed it.
  unfoldable pub put_file : (fd : ℕ) → Option Node → Cmd Files (Unit {0})
  put_file fd none = pure tt
  put_file fd (some node) = modify (λ s. record s { fdt = set_file s.fdt fd node })

  -- What is returned, and the caller's buffer, which is none for a null pointer. The node's offset
  -- becomes a `uint32_t`.
  unfoldable pub sys_read :
      (fd : ℕ) → Option Buffer → (count : ℕ) → Cmd Files (Ssize × Option Buffer)
  sys_read fd none count = pure (failed e_inval, none)
  sys_read fd (some buf) count = do
    node ← gets (λ s. get_elem? s.fdt fd)
    elim node [
      | none ↦ pure (failed e_noent, some buf)
      | some n ↦ do
        r ← on_drivers (vfs_read handlers root (some n) (n.offset % 2 ^ 32) count buf)
        put_file fd r.1
        pure (r.0, some r.2)
    ]

  unfoldable pub sys_write : (fd : ℕ) → Option Buffer → (count : ℕ) → Cmd Files Ssize
  sys_write fd none count = pure (failed e_inval)
  sys_write fd (some buf) count = do
    node ← gets (λ s. get_elem? s.fdt fd)
    elim node [
      | none ↦ pure (failed e_noent)
      | some n ↦ do
        r ← on_drivers (vfs_write handlers root (some n) (n.offset % 2 ^ 32) count buf)
        put_file fd r.1
        pure r.0
    ]

  unfoldable pub sys_ftell : (fd : ℕ) → Cmd Files Ssize
  sys_ftell fd = do
    node ← gets (λ s. get_elem? s.fdt fd)
    elim node [ none ↦ pure (failed e_noent) | some n ↦ pure (vfs_ftell (some n)) ]

  -- The error number of `vfs_fseek` is returned as it is.
  unfoldable pub sys_lseek : (fd offset whence : ℕ) → Cmd Files Ssize
  sys_lseek fd offset whence = do
    node ← gets (λ s. get_elem? s.fdt fd)
    elim node [
      | none ↦ pure (failed e_noent)
      | some n ↦
          (let (ret, moved) = vfs_fseek (some n) offset whence in
            elim moved [
              | none ↦ pure (done ret)
              | some m ↦ (do modify (λ s. record s { fdt = set_file s.fdt fd m }); pure (done ret))
            ])
    ]

  -- `strncpy` writes the null byte of a path that fills the buffer behind it, to the low byte of `id`.
  unfoldable pub set_cwd : Text → Cmd Files (Unit {0})
  set_cwd path = modify (λ s. record s {
    cwd = take max_path path;
    id = if ltb (length path) max_path then s.id else s.id / 256 * 256;
  })

  unfoldable pub sys_chdir : Option Text → Cmd Files ℕ
  sys_chdir none = pure e_inval
  sys_chdir (some path) = do
    cwd ← gets (λ s. s.cwd)
    elim (normalize_path true true true cwd path) [
      | none ↦ pure e_nomem
      | some new_path ↦ do
        node ← on_drivers (vfs_open_file handlers root cwd new_path 0)
        elim node [
          | none ↦ pure e_noent
          | some n ↦ if not (is_dir n) then pure e_notdir else (do set_cwd new_path; pure 0)
        ]
    ]

  unfoldable pub sys_mkdir : Option Text → (attr : ℕ) → Cmd Files ℕ
  sys_mkdir none attr = pure e_inval
  sys_mkdir (some name) attr = do
    cwd ← gets (λ s. s.cwd)
    on_drivers (vfs_mkdir handlers root cwd name attr)

  -- What is copied to the buffer.
  unfoldable pub sys_getcwd : (buf : Bool) (size : ℕ) → Cmd Files (Option Text)
  sys_getcwd buf size =
      if not buf
      then pure none
      else if size == 0
      then pure none
      else gets (λ s. some (take size s.cwd))

  -- A `DIR`.
  pub record Dir : Type 0 where
    pub fd : ℕ
    pub current_entry : ℕ

  -- `memory` says whether `kmalloc` gives the `DIR`.
  unfoldable pub sys_opendir : (memory : Bool) → Option Text → Cmd Files (Option Dir)
  sys_opendir memory none = pure none
  sys_opendir memory (some name) = do
    cwd ← gets (λ s. s.cwd)
    node ← on_drivers (vfs_open_file handlers root cwd name 0)
    elim node [
      | none ↦ pure none
      | some n ↦ do
        fd ← gets (λ s. length s.fdt)
        process_add_file n
        if not memory then pure none else pure (some (record { fd = fd; current_entry = 0 }))
    ]

  -- The descriptor is read before the pointer is tested.
  unfoldable pub sys_closedir : Option Dir → Cmd Files (Unit {0})
  sys_closedir none = λ s. fault
  sys_closedir (some dir) = do process_close_file dir.fd; pure tt

  -- The entry, and the `DIR` behind the pointer.
  unfoldable pub sys_readdir : Option Dir → Cmd Files (Option Text × Dir)
  sys_readdir none = λ s. fault
  sys_readdir (some dir) = do
    node ← gets (λ s. get_elem? s.fdt dir.fd)
    elim node [
      | none ↦ pure (none, dir)
      | some n ↦ do
        entry ← on_drivers (vfs_readdir handlers root (some n) dir.current_entry)
        pure (entry, record dir { current_entry = dir.current_entry + 1 })
    ]
