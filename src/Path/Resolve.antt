-- ===== src/Path/Resolve.antt =====
-- What the path that `normalizePath` of kernel/src/fs/vfs.c returns has to do with its arguments.
use omega_os.Base.{
  ℕ, zero, suc, ◌≡◌, refl, sym, ap, ◌∙◌, inl, inr, true, false, List, [], ◌∷◌, ◌++◌, if◌then◌else◌,
  some, Bool-cases, ◌==◌, subst, arith,
}
use mathlib.Core.List.{append-nil, append_assoc}
use omega_os.Path.{
  Text, separator, curr_dir, up_dir, same_text, tokens, pop, push_token, push_tokens, assemble,
  base, is_relative, normalize_path,
}
use omega_os.Path.Tokens.{IsToken, Each, tokens-append, tokens-Each, tokens-assemble}
use omega_os.Path.Normal.{
  IsName, pop-append, names-tokens, push_tokens-names, push_tokens-append, push_tokens-Each,
  base-Each, base-relative, normalize_path-done,
}

-- The components of a path read from its end: how many of the directories before them the `..`s leave,
-- and the names that stay.
pub record Kept : Type 0 where
  pub ups : ℕ
  pub names : List Text

abbrev pub keep_name : Text → Kept → Kept
keep_name t k = elim k.ups [
  | zero ↦ record { ups = 0; names = t ∷ k.names }
  | suc n ↦ record { ups = n; names = k.names }
]

unfoldable pub kept : List Text → Kept
kept [] = record { ups = 0; names = [] }
kept (t ∷ ts) =
    let rest = kept ts in
    if same_text t up_dir
    then record { ups = suc rest.ups; names = rest.names }
    else if same_text t curr_dir
    then rest
    else keep_name t rest

-- The names that a path from the root stands for.
abbrev pub resolve : List Text → List Text
resolve ts = (kept ts).names

-- The path from the root that is meant.
abbrev pub full : (cwd path : Text) → Text
full cwd path = if is_relative path then cwd ++ separator ∷ path else path

pops : ℕ → List Text → List Text
pops zero ts = ts
pops (suc n) ts = pops n (pop ts)

pops-keep_name :
    (ts : List Text) (t : Text) (n : ℕ) (names : List Text)
    → pops n (ts ++ t ∷ []) ++ names
      ≡ pops (keep_name t (record { ups = n; names = names })).ups ts
        ++ (keep_name t (record { ups = n; names = names })).names
unfolding pops
pops-keep_name ts t zero names = append_assoc ts (t ∷ []) names
pops-keep_name ts t (suc n) names = ap (λ us. pops n us ++ names) (pop-append ts t)

push_tokens-kept :
    (ts us : List Text) → push_tokens ts us ≡ pops (kept us).ups ts ++ (kept us).names
unfolding push_tokens push_token kept pops
push_tokens-kept ts [] = sym (append-nil ts)
push_tokens-kept ts (u ∷ us) = elim (Bool-cases (same_text u up_dir)) [
  | inl up ↦ rw (up, push_tokens-kept (pop ts) us) refl
  | inr down ↦ elim (Bool-cases (same_text u curr_dir)) [
    | inl here ↦ rw (down, here) (push_tokens-kept ts us)
    | inr other ↦
        rw (down, other)
          (push_tokens-kept (ts ++ u ∷ []) us ∙ pops-keep_name ts u (kept us).ups (kept us).names)
  ]
]

pops-root : (n : ℕ) → pops n [] ≡ []
unfolding pops pop
pops-root zero = refl
pops-root (suc n) = pops-root n

push_tokens-resolve : (us : List Text) → push_tokens [] us ≡ resolve us
push_tokens-resolve us =
    push_tokens-kept [] us ∙ ap (λ ts. ts ++ (kept us).names) (pops-root (kept us).ups)

base-absolute : (cwd path : Text) → is_relative path ≡ false → base cwd path ≡ []
unfolding base is_relative
base-absolute cwd [] absolute = refl
base-absolute cwd (x ∷ xs) absolute =
    let e : (x == separator) ≡ true = ground (arith, absolute) in rw e refl

components-resolve :
    (cwd path : Text)
    → Each IsName (tokens cwd)
    → push_tokens (base cwd path) (tokens path) ≡ resolve (tokens (full cwd path))
components-resolve cwd path names = elim (Bool-cases (is_relative path)) [
  | inl relative ↦
      rw (relative, base-relative cwd path relative)
        (ap (λ ts. push_tokens ts (tokens path)) (sym (push_tokens-names [] (tokens cwd) names))
          ∙ sym (push_tokens-append [] (tokens cwd) (tokens path))
          ∙ push_tokens-resolve (tokens cwd ++ tokens path)
          ∙ ap resolve (sym (tokens-append cwd path)))
  | inr absolute ↦
      rw (absolute, base-absolute cwd path absolute) (push_tokens-resolve (tokens path))
]

resolve-Each : (us : List Text) → Each IsToken us → Each IsName (resolve us)
resolve-Each us each = subst (Each IsName) (push_tokens-resolve us) (push_tokens-Each [] us tt each)

-- A path that has been resolved may stand for itself at the start of a longer one.
resolve-append :
    (us vs : List Text) → Each IsToken us → resolve (resolve us ++ vs) ≡ resolve (us ++ vs)
resolve-append us vs each =
    sym (push_tokens-resolve (resolve us ++ vs))
    ∙ push_tokens-append [] (resolve us) vs
    ∙ ap (λ ts. push_tokens ts vs) (push_tokens-names [] (resolve us) (resolve-Each us each))
    ∙ ap (λ ts. push_tokens ts vs) (sym (push_tokens-resolve us))
    ∙ sym (push_tokens-append [] us vs)
    ∙ push_tokens-resolve (us ++ vs)

-- When memory is given and no component of the working directory is `.` or `..`, `normalizePath`
-- returns the path of exactly these components: those of the path, behind the working directory's if
-- the path is relative, without every `.`, every `..`, and for each `..` the nearest name before it
-- that no other `..` takes away. None of them is empty, `.` or `..`, and they are read back from the
-- result.
pub normalize_path-resolve :
    (cwd path : Text)
    → Each IsName (tokens cwd)
    → (normalize_path true true true cwd path ≡ some (assemble (resolve (tokens (full cwd path)))))
      × Each IsName (resolve (tokens (full cwd path)))
      × (tokens (assemble (resolve (tokens (full cwd path)))) ≡ resolve (tokens (full cwd path)))
normalize_path-resolve cwd path names =
    let e = components-resolve cwd path names in
    let each : Each IsName (resolve (tokens (full cwd path))) = subst (Each IsName) e (
      push_tokens-Each (base cwd path) (tokens path) (base-Each cwd path names)
        (tokens-Each path)) in
    (
      normalize_path-done cwd path ∙ ap (λ ts. some (assemble ts)) e,
      each,
      tokens-assemble (resolve (tokens (full cwd path)))
          (names-tokens (resolve (tokens (full cwd path))) each),
    )

-- A working directory that has been resolved from another path.
pub normalize_path-behind :
    (cwd spelled path : Text)
    → cwd ≡ assemble (resolve (tokens spelled))
    → normalize_path true true true cwd path
      ≡ some (assemble (resolve (tokens (full spelled path))))
normalize_path-behind cwd spelled path e =
    let each : Each IsName (resolve (tokens spelled)) =
      resolve-Each (tokens spelled) (tokens-Each spelled) in
    let back : tokens cwd ≡ resolve (tokens spelled) =
      ap tokens e
      ∙ tokens-assemble (resolve (tokens spelled)) (names-tokens (resolve (tokens spelled)) each) in
    (normalize_path-resolve cwd path (subst (Each IsName) (sym back) each)).0
    ∙ elim (Bool-cases (is_relative path)) [
      | inl relative ↦ rw relative (
          ap (λ ts. some (assemble (resolve ts))) (tokens-append cwd path)
          ∙ ap (λ ts. some (assemble (resolve (ts ++ tokens path)))) back
          ∙ ap (λ ts. some (assemble ts))
              (resolve-append (tokens spelled) (tokens path) (tokens-Each spelled))
          ∙ ap (λ ts. some (assemble (resolve ts))) (sym (tokens-append spelled path)))
      | inr absolute ↦ rw absolute refl
    ]
