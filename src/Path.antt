-- ===== src/Path.antt =====
-- `normalizePath` of kernel/src/fs/vfs.c. A C string is the list of its bytes here, the list of path
-- components is a list; the strings' and lists' own code is modelled apart.
pub mod Tokens
pub mod Normal
pub mod Resolve
mod Tests
use omega_os.Base.{
  ℕ, Bool, true, false, ◌&&◌, not, Option, none, some, List, [], ◌∷◌, ◌++◌, ◌==◌, if◌then◌else◌,
}

abbrev pub Text : Type 0
Text = List ℕ

-- `FS_PATH_SEPERATOR`, `FS_PATH_CURR_DIR` and `FS_PATH_UP_DIR`.
abbrev pub separator : ℕ
separator = 47

abbrev pub curr_dir : Text
curr_dir = 46 ∷ []

abbrev pub up_dir : Text
up_dir = 46 ∷ 46 ∷ []

-- `!strcmp(s1, s2)`.
unfoldable pub same_text : Text → Text → Bool
same_text [] [] = true
same_text [] (y ∷ ys) = false
same_text (x ∷ xs) [] = false
same_text (x ∷ xs) (y ∷ ys) = x == y && same_text xs ys

-- The token that has been read, if there is one, before the others.
abbrev pub add_token : Text → List Text → List Text
add_token [] rest = rest
add_token (x ∷ xs) rest = (x ∷ xs) ∷ rest

-- What repeated calls of `strtok` with the separator return; `token` is the part of the current
-- token that has been read.
unfoldable pub tokens_from : (token s : Text) → List Text
tokens_from token [] = add_token token []
tokens_from token (x ∷ xs) =
    if x == separator then add_token token (tokens_from [] xs) else tokens_from (token ++ x ∷ []) xs

unfoldable pub tokens : Text → List Text
tokens s = tokens_from [] s

-- `list_pop`: without the last component.
unfoldable pub pop : List Text → List Text
pop [] = []
pop (x ∷ []) = []
pop (x ∷ y ∷ ys) = x ∷ pop (y ∷ ys)

-- One round of the loop over the tokens of the path.
unfoldable pub push_token : List Text → Text → List Text
push_token lst token =
    if same_text token up_dir
    then pop lst
    else if same_text token curr_dir
    then lst
    else lst ++ token ∷ []

unfoldable pub push_tokens : List Text → List Text → List Text
push_tokens lst [] = lst
push_tokens lst (token ∷ rest) = push_tokens (push_token lst token) rest

-- The loop that assembles the final path.
unfoldable pub join : List Text → Text
join [] = []
join (item ∷ rest) = separator ∷ item ++ join rest

unfoldable pub assemble : List Text → Text
assemble [] = separator ∷ []
assemble (item ∷ rest) = join (item ∷ rest)

-- The working directory's components, for a path that is relative.
unfoldable pub base : (cwd path : Text) → List Text
base cwd [] = []
base cwd (x ∷ xs) = if x == separator then [] else tokens cwd

unfoldable pub is_relative : Text → Bool
is_relative [] = false
is_relative (x ∷ xs) = not (x == separator)

-- `cwd_copy`, `path_copy` and `output` say whether the calls of `kmalloc` have succeeded.
unfoldable pub normalize_path : (cwd_copy path_copy output : Bool) (cwd path : Text) → Option Text
normalize_path cwd_copy path_copy output cwd path =
    if is_relative path && not cwd_copy
    then none
    else if path_copy && output
    then some (assemble (push_tokens (base cwd path) (tokens path)))
    else none
