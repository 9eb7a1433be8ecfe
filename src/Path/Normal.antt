-- ===== src/Path/Normal.antt =====
-- The paths that `normalizePath` of kernel/src/fs/vfs.c returns.
use omega_os.Base.{
  ◌≡◌, ◌≢◌, refl, sym, ap, ◌∙◌, inl, inr, true, false, List, [], ◌∷◌, ◌++◌, ◌==◌, arith, some,
  Bool-cases,
}
use mathlib.Core.List.{append-nil, append_assoc}
use omega_os.Path.{
  Text, separator, curr_dir, up_dir, same_text, tokens, pop, push_token, push_tokens, tokens_from,
  join, assemble, base, is_relative, normalize_path,
}
use omega_os.Path.Tokens.{IsToken, Each, Each-append, tokens-Each, tokens-assemble, tokens-append}

-- A component that names an entry of a directory.
abbrev pub IsName : Text → Type 0
IsName t = IsToken t × (t ≢ curr_dir) × (t ≢ up_dir)

same_text_refl : (t : Text) → same_text t t ≡ true
unfolding same_text
same_text_refl [] = refl
same_text_refl (x ∷ xs) = let e : (x == x) ≡ true = ground arith in rw e (same_text_refl xs)

same_text_sound : (t u : Text) → same_text t u ≡ true → t ≡ u
unfolding same_text
same_text_sound [] [] h = refl
same_text_sound [] (y ∷ ys) h = cc
same_text_sound (x ∷ xs) [] h = cc
same_text_sound (x ∷ xs) (y ∷ ys) h =
    let head : x ≡ y = ground (arith, h) in
    let tail : xs ≡ ys = same_text_sound xs ys (ground (arith, h)) in cc

same_text-other : (t u : Text) → t ≢ u → same_text t u ≡ false
same_text-other t u ne = elim (Bool-cases (same_text t u)) [
  | inl same ↦ absurd (ne (same_text_sound t u same))
  | inr other ↦ other
]

same_text-false : (t u : Text) → same_text t u ≡ false → t ≢ u
same_text-false t u other e =
    let bad : true ≡ false = sym (same_text_refl t) ∙ ap (same_text t) e ∙ other in cc

pop-Each : (P : Text → Type 0) (ts : List Text) → Each P ts → Each P (pop ts)
unfolding pop
pop-Each P [] h = tt
pop-Each P (t ∷ []) h = tt
pop-Each P (t ∷ u ∷ us) (h, hs) = (h, pop-Each P (u ∷ us) hs)

-- `list_pop` takes away the component that was inserted last.
pub pop-append : (ts : List Text) (t : Text) → pop (ts ++ t ∷ []) ≡ ts
unfolding pop
pop-append [] t = refl
pop-append (u ∷ []) t = refl
pop-append (u ∷ v ∷ vs) t = ap (λ r. u ∷ r) (pop-append (v ∷ vs) t)

push_token-Each :
    (ts : List Text) (t : Text) → Each IsName ts → IsToken t → Each IsName (push_token ts t)
unfolding push_token
push_token-Each ts t names token = elim (Bool-cases (same_text t up_dir)) [
  | inl up ↦ rw up (pop-Each IsName ts names)
  | inr down ↦ elim (Bool-cases (same_text t curr_dir)) [
    | inl here ↦ rw (down, here) names
    | inr other ↦
        rw (down, other)
          (Each-append IsName ts (t ∷ []) names
            (((token, same_text-false t curr_dir other, same_text-false t up_dir down)), tt))
  ]
]

pub push_tokens-Each :
    (ts us : List Text) → Each IsName ts → Each IsToken us → Each IsName (push_tokens ts us)
unfolding push_tokens
push_tokens-Each ts [] names h = names
push_tokens-Each ts (u ∷ us) names (h, hs) =
    push_tokens-Each (push_token ts u) us (push_token-Each ts u names h) hs

-- Names are pushed as they are.
pub push_tokens-names : (ts us : List Text) → Each IsName us → push_tokens ts us ≡ ts ++ us
unfolding push_tokens push_token
push_tokens-names ts [] h = sym (append-nil ts)
push_tokens-names ts (u ∷ us) ((_, not_curr, not_up), hs) =
    rw (same_text-other u up_dir not_up, same_text-other u curr_dir not_curr)
      (push_tokens-names (ts ++ u ∷ []) us hs ∙ append_assoc ts (u ∷ []) us)

some-injective : {a b : Text} → some a ≡ some b → a ≡ b
some-injective e = cc

pub names-tokens : (ts : List Text) → Each IsName ts → Each IsToken ts
names-tokens [] h = tt
names-tokens (t ∷ ts) ((k, _, _), hs) = (k, names-tokens ts hs)

pub base-Each : (cwd path : Text) → Each IsName (tokens cwd) → Each IsName (base cwd path)
unfolding base
base-Each cwd [] names = tt
base-Each cwd (x ∷ xs) names = elim (Bool-cases (x == separator)) [
  | inl absolute ↦ rw absolute tt
  | inr relative ↦ rw relative names
]

pub normalize_path-done :
    (cwd path : Text)
    → normalize_path true true true cwd path
      ≡ some (assemble (push_tokens (base cwd path) (tokens path)))
unfolding normalize_path
normalize_path-done cwd path = elim (Bool-cases (is_relative path)) [
  | inl relative ↦ rw relative
  | inr absolute ↦ rw absolute
]

-- When memory is given and no component of the working directory is `.` or `..`, `normalizePath`
-- returns the path of components none of which is empty, `.` or `..`, and they are read back from it.
pub normalize_path-names :
    (cwd path : Text)
    → Each IsName (tokens cwd)
    → (ts : List Text) × (normalize_path true true true cwd path ≡ some (assemble ts))
      × Each IsName ts
      × (tokens (assemble ts) ≡ ts)
normalize_path-names cwd path names =
    let ts : List Text = push_tokens (base cwd path) (tokens path) in
    let each : Each IsName ts =
      push_tokens-Each (base cwd path) (tokens path) (base-Each cwd path names)
        (tokens-Each path) in
    (ts, normalize_path-done cwd path, each, tokens-assemble ts (names-tokens ts each))

base-assemble : (cwd : Text) (ts : List Text) → base cwd (assemble ts) ≡ []
unfolding base assemble join
base-assemble cwd [] = refl
base-assemble cwd (t ∷ ts) = refl

-- A path of names is left as it is.
pub normalize_path-fixed :
    (cwd : Text) (ts : List Text)
    → Each IsName ts
    → normalize_path true true true cwd (assemble ts) ≡ some (assemble ts)
normalize_path-fixed cwd ts each =
    normalize_path-done cwd (assemble ts)
    ∙ ap (λ b. some (assemble (push_tokens b (tokens (assemble ts))))) (base-assemble cwd ts)
    ∙ ap (λ us. some (assemble (push_tokens [] us))) (tokens-assemble ts (names-tokens ts each))
    ∙ ap (λ us. some (assemble us)) (push_tokens-names [] ts each)

-- A path that `normalizePath` has returned is left as it is, whatever the working directory then is.
pub normalize_path-idempotent :
    (cwd cwd' path r : Text)
    → Each IsName (tokens cwd)
    → normalize_path true true true cwd path ≡ some r
    → normalize_path true true true cwd' r ≡ some r
normalize_path-idempotent cwd cwd' path r names run =
    let (ts, run', each, _) = normalize_path-names cwd path names in
    let e : assemble ts ≡ r = some-injective (sym run' ∙ run) in
    ap (normalize_path true true true cwd') (sym e) ∙ normalize_path-fixed cwd' ts each ∙ ap some e

pub push_tokens-append :
    (ts us vs : List Text) → push_tokens ts (us ++ vs) ≡ push_tokens (push_tokens ts us) vs
unfolding push_tokens
push_tokens-append ts [] vs = refl
push_tokens-append ts (u ∷ us) vs = push_tokens-append (push_token ts u) us vs

pub base-relative : (cwd path : Text) → is_relative path ≡ true → base cwd path ≡ tokens cwd
unfolding base is_relative
base-relative cwd [] relative = cc
base-relative cwd (x ∷ xs) relative =
    let e : (x == separator) ≡ false = ground (arith, relative) in rw e

-- A relative path is resolved as the absolute path that the working directory, a separator and the
-- path make, for a working directory that begins with a separator and has no component `.` or `..`.
pub normalize_path-relative :
    (dir cwd path : Text)
    → Each IsName (tokens (separator ∷ dir))
    → is_relative path ≡ true
    → normalize_path true true true (separator ∷ dir) path
      ≡ normalize_path true true true cwd ((separator ∷ dir) ++ separator ∷ path)
unfolding base
normalize_path-relative dir cwd path names relative =
    let d : Text = separator ∷ dir in
    normalize_path-done d path
    ∙ ap (λ b. some (assemble (push_tokens b (tokens path)))) (base-relative d path relative)
    ∙ ap (λ b. some (assemble (push_tokens b (tokens path))))
        (sym (push_tokens-names [] (tokens d) names))
    ∙ ap (λ us. some (assemble us)) (sym (push_tokens-append [] (tokens d) (tokens path)))
    ∙ ap (λ us. some (assemble (push_tokens [] us))) (sym (tokens-append d path))
    ∙ sym (normalize_path-done cwd (d ++ separator ∷ path))

push_tokens-up : (ts : List Text) → push_tokens ts (tokens up_dir) ≡ pop ts
unfolding push_tokens push_token tokens tokens_from same_text
push_tokens-up ts = refl

base-behind : (cwd : Text) (ts : List Text) → base cwd (assemble ts ++ separator ∷ up_dir) ≡ []
unfolding base assemble join
base-behind cwd [] = refl
base-behind cwd (t ∷ ts) = refl

-- The path that `getParent` makes, with `/..` behind a path that has been normalized, is that of the
-- components without the last one.
pub normalize_path-parent :
    (cwd : Text) (ts : List Text)
    → Each IsName ts
    → normalize_path true true true cwd (assemble ts ++ separator ∷ up_dir)
      ≡ some (assemble (pop ts))
normalize_path-parent cwd ts names =
    normalize_path-done cwd (assemble ts ++ separator ∷ up_dir)
    ∙ ap (λ b. some (assemble (push_tokens b (tokens (assemble ts ++ separator ∷ up_dir)))))
        (base-behind cwd ts)
    ∙ ap (λ us. some (assemble (push_tokens [] us)))
        (tokens-append (assemble ts) up_dir
          ∙ ap (λ us. us ++ tokens up_dir) (tokens-assemble ts (names-tokens ts names)))
    ∙ ap (λ us. some (assemble us))
        (push_tokens-append [] ts (tokens up_dir)
          ∙ ap (λ us. push_tokens us (tokens up_dir)) (push_tokens-names [] ts names)
          ∙ push_tokens-up ts)
