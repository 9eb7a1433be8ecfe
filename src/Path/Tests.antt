-- ===== src/Path/Tests.antt =====
-- The theorems about `normalizePath` of kernel/src/fs/vfs.c at small paths.
use omega_os.Base.{◌≡◌, refl, true, some, [], ◌∷◌, arith}
use omega_os.Path.{
  Text, separator, tokens, tokens_from, same_text, pop, push_token, push_tokens, join, assemble,
  base, is_relative, normalize_path,
}
use omega_os.Path.Tokens.{Each}
use omega_os.Path.Resolve.{full, resolve, kept, normalize_path-resolve}
use omega_os.Path.Normal.{IsName}

-- "/a".
abbrev cwd : Text
cwd = 47 ∷ 97 ∷ []

-- "./b/..//c".
abbrev path : Text
path = 46 ∷ 47 ∷ 98 ∷ 47 ∷ 46 ∷ 46 ∷ 47 ∷ 47 ∷ 99 ∷ []

-- "/a/c".
abbrev resolved : Text
resolved = 47 ∷ 97 ∷ 47 ∷ 99 ∷ []

cwd-names : Each IsName (tokens cwd)
unfolding tokens tokens_from
cwd-names = ((((λ e. cc), ((λ e. omega (arith, e)), tt)), (λ e. cc), (λ e. cc)), tt)

resolves : normalize_path true true true cwd path ≡ some resolved
unfolding normalize_path is_relative base tokens tokens_from push_tokens push_token same_text pop
    assemble join
resolves = refl

-- The empty path is the root directory, not the working directory.
empty_path : normalize_path true true true cwd [] ≡ some (separator ∷ [])
unfolding normalize_path is_relative base tokens tokens_from push_tokens assemble
empty_path = refl

normalize_path-resolve_example :
    (normalize_path true true true cwd path ≡ some (assemble (resolve (tokens (full cwd path)))))
    × Each IsName (resolve (tokens (full cwd path)))
    × (tokens (assemble (resolve (tokens (full cwd path)))) ≡ resolve (tokens (full cwd path)))
normalize_path-resolve_example = normalize_path-resolve cwd path cwd-names

-- The components of "/a/./b/..//c" are "a" and "c".
components : resolve (tokens (full cwd path)) ≡ (97 ∷ []) ∷ (99 ∷ []) ∷ []
unfolding kept tokens tokens_from same_text is_relative
components = refl
