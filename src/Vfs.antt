-- ===== src/Vfs.antt =====
-- The virtual file system: kernel/src/fs/vfs.c behind `normalizePath`. The drivers' handlers are
-- parameters, a driver standing for the function pointers of a node.
pub mod Names
pub mod Open
mod Tests
use omega_os.Base.{
  ℕ, zero, suc, ◌+◌, ◌-◌, ◌/◌, ◌%◌, ◌^◌, Bool, true, false, ◌&&◌, ◌||◌, not, Option, none, some,
  List, [], ◌∷◌, ◌++◌, leb, ltb, ◌==◌, if◌then◌else◌, length,
}
use omega_os.Base.Run.{Run, ok, panicked, fault, deadlock, out_of_fuel, Cmd, pure, ◌>>=◌, ◌>>◌}
use omega_os.Ide.{Buffer}
use omega_os.Path.{Text, separator, up_dir, normalize_path}

-- The error numbers of kernel/include/errno.h.
abbrev pub e_perm : ℕ
e_perm = 1

abbrev pub e_isdir : ℕ
e_isdir = 21

abbrev pub e_inval : ℕ
e_inval = 22

-- A `ssize_t`: a count, or the negation of an error number.
pub data Ssize : Type 0 where
  done : ℕ → Ssize
  failed : ℕ → Ssize

-- What this code reads and writes of a `VfsNode_t`.
pub record Node : Type 0 where
  pub driver : ℕ
  pub inode : ℕ
  pub flags : ℕ
  pub attr : ℕ
  pub size : ℕ
  pub offset : ℕ

-- The function pointers of a node, over the state of the drivers. None is a null pointer. A driver
-- may change the node it reads or writes, and fills the buffer that it reads to.
pub record Handlers (D : Type 0) : Type 0 where
  pub read : Option (Node → (offset size : ℕ) → Buffer → Cmd D (Ssize × Node × Buffer))
  pub write : Option (Node → (offset size : ℕ) → Buffer → Cmd D (Ssize × Node))
  pub open_node : Option (Node → (attr : ℕ) → Cmd D (Unit {0}))
  pub close_node : Option (Node → Cmd D (Unit {0}))
  pub readdir : Option (Node → (index : ℕ) → Cmd D (Option Text))
  pub finddir : Option (Node → Text → Cmd D (Option Node))
  pub create : Option (Node → Text → (attr : ℕ) → Cmd D ℕ)
  pub mkdir : Option (Node → Text → (attr : ℕ) → Cmd D ℕ)
  pub delete : Option (Node → Text → Cmd D ℕ)

-- `FS_FILE` and `FS_DIR` are bits of `flags`, `O_WRONLY` is a bit of `attr`.
abbrev pub is_file : Node → Bool
is_file node = node.flags % 2 == 1

abbrev pub is_dir : Node → Bool
is_dir node = node.flags / 2 % 2 == 1

abbrev pub write_only : Node → Bool
write_only node = node.attr % 2 == 1

-- `O_RDONLY` is 0, so that `node->attr & O_RDONLY` is 0.
abbrev pub read_only : Node → Bool
read_only node = not (0 == 0)

-- `SEEK_SET`, `SEEK_CUR` and `SEEK_END`; `offset` is a 64-bit word.
unfoldable pub vfs_fseek : Option Node → (offset whence : ℕ) → ℕ × Option Node
vfs_fseek none offset whence = (e_perm, none)
vfs_fseek (some node) offset whence =
    if not (is_file node)
    then (e_isdir, some node)
    else if whence == 0
    then (0, some (record node { offset = offset }))
    else if whence == 1
    then (0, some (record node { offset = (node.offset + offset) % 2 ^ 64 }))
    else if whence == 2
    then (0, some (record node { offset = node.size }))
    else (e_inval, some node)

unfoldable pub vfs_ftell : Option Node → Ssize
vfs_ftell none = failed e_perm
vfs_ftell (some node) = if not (is_file node) then failed e_isdir else done node.offset

-- The index of the last separator in `path`, of which `i` bytes have been read.
unfoldable pub last_separator : (i : ℕ) → Text → (found : ℕ) → ℕ
last_separator i [] found = found
last_separator i (x ∷ xs) found = last_separator (i + 1) xs (if x == separator then i else found)

-- The first loop of `vfs_openFile`, which puts a null byte at each separator: `pathDepth`.
unfoldable pub path_depth : Text → ℕ
path_depth [] = 0
path_depth (x ∷ xs) = let rest = path_depth xs in if x == separator then suc rest else rest

-- The strings that are then at `pathOffset`, each behind the null byte of the one before; `name` is
-- the part of the current one that has been read.
unfoldable pub cut_from : (name s : Text) → List Text
cut_from name [] = name ∷ []
cut_from name (x ∷ xs) =
    if x == separator then name ∷ cut_from [] xs else cut_from (name ++ x ∷ []) xs

-- As many strings as the loop over `depth` has rounds.
unfoldable pub first : ℕ → List Text → List Text
first zero names = []
first (suc n) [] = []
first (suc n) (name ∷ names) = name ∷ first n names

-- The names that `vfs_openFile` looks up for a path, of which it passes over the first byte.
unfoldable pub path_names : Text → List Text
path_names [] = []
path_names (x ∷ xs) = first (path_depth (x ∷ xs)) (cut_from [] xs)

-- The string at `name + i`, if that is not behind the null byte.
unfoldable pub string_at : ℕ → Text → Option Text
string_at zero name = some name
string_at (suc i) [] = none
string_at (suc i) (x ∷ xs) = string_at i xs

module _ {D : Type 0} (handlers : ℕ → Handlers D) (root : Node) where
  -- What `vfs_read` and `vfs_write` return, the node behind the pointer, and the buffer.
  unfoldable pub vfs_read :
      Option Node → (offset size : ℕ) → Buffer → Cmd D (Ssize × Option Node × Buffer)
  vfs_read none offset size buffer = pure (failed e_perm, none, buffer)
  vfs_read (some node) offset size buffer = elim ((handlers node.driver).read) [
    | none ↦ pure (failed e_perm, some node, buffer)
    | some f ↦
        if write_only node
        then pure (failed e_perm, some node, buffer)
        else if not (is_file node)
        then pure (failed e_isdir, some node, buffer)
        else if size == 0
        then pure (done 0, some node, buffer)
        else (do r ← f node offset size buffer; pure (r.0, some r.1, r.2))
  ]

  unfoldable pub vfs_write : Option Node → (offset size : ℕ) → Buffer → Cmd D (Ssize × Option Node)
  vfs_write none offset size buffer = pure (failed e_perm, none)
  vfs_write (some node) offset size buffer = elim ((handlers node.driver).write) [
    | none ↦ pure (failed e_perm, some node)
    | some f ↦
        if read_only node
        then pure (failed e_perm, some node)
        else if not (is_file node)
        then pure (failed e_isdir, some node)
        else if size == 0
        then pure (done 0, some node)
        else (do r ← f node offset size buffer; pure (r.0, some r.1))
  ]

  unfoldable pub vfs_open : Option Node → (attr : ℕ) → Cmd D (Unit {0})
  vfs_open none attr = pure tt
  vfs_open (some node) attr = elim ((handlers node.driver).open_node) [
    | none ↦ pure tt
    | some f ↦ f node attr
  ]

  -- `is_root` says whether the node is `_RootFS` itself, and not a copy of it.
  unfoldable pub vfs_close : (is_root : Bool) → Option Node → Cmd D (Unit {0})
  vfs_close is_root none = pure tt
  vfs_close is_root (some node) = elim ((handlers node.driver).close_node) [
    | none ↦ pure tt
    | some f ↦ if not is_root then f node else pure tt
  ]

  unfoldable pub vfs_readdir : Option Node → (index : ℕ) → Cmd D (Option Text)
  vfs_readdir none index = pure none
  vfs_readdir (some node) index = elim ((handlers node.driver).readdir) [
    | none ↦ pure none
    | some f ↦ if not (is_dir node) then pure none else f node index
  ]

  unfoldable pub vfs_finddir : Option Node → Text → Cmd D (Option Node)
  vfs_finddir none name = pure none
  vfs_finddir (some node) name = elim ((handlers node.driver).finddir) [
    | none ↦ pure none
    | some f ↦ if not (is_dir node) then pure none else f node name
  ]

  -- The loop of `vfs_openFile` over the components that are left; the last node is opened.
  unfoldable pub open_below : Node → List Text → (attr : ℕ) → Cmd D (Option Node)
  open_below node [] attr = pure (some node)
  open_below node (name ∷ rest) attr = do
    next ← vfs_finddir (some node) name
    elim next [
      | none ↦ pure none
      | some n ↦ elim rest [
        | [] ↦ (do vfs_open (some n) attr; pure (some n))
        | _ ∷ _ ↦ open_below n rest attr
      ]
    ]

  -- Memory for the copies of strings and nodes is given; the root directory is not opened.
  unfoldable pub vfs_open_file : (cwd name : Text) (attr : ℕ) → Cmd D (Option Node)
  vfs_open_file cwd name attr = elim (normalize_path true true true cwd name) [
    | none ↦ pure none
    | some path ↦
        if length path == 1 then pure (some root) else open_below root (path_names path) attr
  ]

  -- `getParent` and what `vfs_create`, `vfs_mkdir` and `vfs_delete` do with it. The file's name is
  -- `name + i` where `i` is an index into the normalized path; behind the null byte it is a fault.
  unfoldable pub in_parent :
      (cwd name : Text) (attr : ℕ) → (Node → Option (Text → Cmd D ℕ)) → Cmd D ℕ
  in_parent cwd name attr handler = elim (normalize_path true true true cwd name) [
    | none ↦ pure e_perm
    | some path ↦ do
      parent ← vfs_open_file cwd (path ++ separator ∷ up_dir) attr
      elim parent [
        | none ↦ pure e_perm
        | some p ↦ elim (handler p) [
          | none ↦ pure e_perm
          | some f ↦ elim (string_at (last_separator 0 path 0) name) [
            | none ↦ (λ d. fault)
            | some file ↦ f file
          ]
        ]
      ]
  ]

  unfoldable pub vfs_create : (cwd name : Text) (attr : ℕ) → Cmd D ℕ
  vfs_create cwd name attr = in_parent cwd name attr (λ p. elim ((handlers p.driver).create) [
    | none ↦ none
    | some f ↦ some (λ file. f p file attr)
  ])

  unfoldable pub vfs_mkdir : (cwd name : Text) (attr : ℕ) → Cmd D ℕ
  vfs_mkdir cwd name attr = in_parent cwd name attr (λ p. elim ((handlers p.driver).mkdir) [
    | none ↦ none
    | some f ↦ some (λ file. f p file attr)
  ])

  unfoldable pub vfs_delete : (cwd name : Text) → Cmd D ℕ
  vfs_delete cwd name =
      in_parent cwd name 0
        (λ p. elim ((handlers p.driver).delete) [ none ↦ none | some f ↦ some (λ file. f p file) ])
