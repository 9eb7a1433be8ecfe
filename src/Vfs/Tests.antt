-- ===== src/Vfs/Tests.antt =====
-- The theorems about kernel/src/fs/vfs.c with a driver that finds a directory under every name.
use omega_os.Base.{ℕ, ◌+◌, ◌≡◌, refl, none, some, [], ◌∷◌, ◌++◌, length, arith}
use omega_os.Base.Run.{ok, fault, and_then}
use omega_os.Path.{
  Text, separator, assemble, join, normalize_path, is_relative, base, tokens, tokens_from,
  push_tokens, push_token, same_text, pop,
}
use omega_os.Path.Tokens.{Each}
use omega_os.Path.Normal.{IsName}
use omega_os.Vfs.{
  Node, Handlers, vfs_open_file, path_names, path_depth, cut_from, first, vfs_create, vfs_finddir,
  vfs_open, open_below, in_parent, last_separator, string_at, vfs_fseek,
}
use omega_os.Vfs.Open.{open_path, created_in, vfs_open_file-open_path, vfs_create-normalized}

abbrev root : Node
root = record { driver = 0; inode = 2; flags = 2; attr = 0; size = 0; offset = 0 }

-- The state counts the files that have been created.
abbrev handlers : ℕ → Handlers ℕ
handlers driver = record {
  read = none;
  write = none;
  open_node = none;
  close_node = none;
  readdir = none;
  finddir = some (λ node name d. ok (some (record node { inode = node.inode + length name })) d);
  create = some (λ node name attr d. ok 0 (d + 1));
  mkdir = none;
  delete = none;
}

abbrev a : Text
a = 97 ∷ []

a-names : Each IsName (a ∷ a ∷ [])
a-names = (
  (((λ e. cc), ((λ e. omega (arith, e)), tt)), (λ e. cc), (λ e. cc)),
  ((((λ e. cc), ((λ e. omega (arith, e)), tt)), (λ e. cc), (λ e. cc)), tt),
)

vfs_open_file-open_path_example :
    vfs_open_file handlers root a (assemble (a ∷ a ∷ [])) 0 0
    ≡ open_path handlers root (a ∷ a ∷ []) 0 0
unfolding normalize_path is_relative base tokens tokens_from push_tokens push_token same_text
    assemble join
vfs_open_file-open_path_example =
    vfs_open_file-open_path handlers root a (assemble (a ∷ a ∷ [])) 0 (a ∷ a ∷ []) 0 a-names refl

vfs_create-normalized_example :
    vfs_create handlers root a (assemble ((a ∷ []) ++ a ∷ [])) 0 0
    ≡ and_then (open_path handlers root (a ∷ []) 0 0) (created_in handlers root (separator ∷ a) 0)
vfs_create-normalized_example = vfs_create-normalized handlers root a 0 (a ∷ []) a 0 a-names

-- A relative name in a directory below the root: its address is taken behind its null byte.
create_relative : vfs_create handlers root (separator ∷ a) a 0 0 ≡ fault
unfolding vfs_create in_parent vfs_open_file path_names path_depth cut_from first open_below
    vfs_finddir vfs_open last_separator string_at normalize_path is_relative base tokens tokens_from
    push_tokens push_token same_text pop assemble join
create_relative = refl

-- `SEEK_END` forgets the offset.
seek_end :
    vfs_fseek (some (record root { flags = 1; size = 9 })) 5 2
    ≡ (0, some (record root { flags = 1; size = 9; offset = 9 }))
unfolding vfs_fseek
seek_end = refl
