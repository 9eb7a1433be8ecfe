-- ===== src/Path/Tokens.antt =====
-- The components of a path, of kernel/src/fs/vfs.c, and its printed form.
use omega_os.Base.{
  ◌≡◌, ◌≢◌, refl, sym, ap, ◌∙◌, true, false, List, [], ◌∷◌, ◌++◌, ◌==◌, arith, ℕ_discrete,
}
use mathlib.Core.List.{append-nil, append_assoc}
use omega_os.Path.{Text, separator, tokens_from, tokens, add_token, join, assemble}

-- No byte is the separator.
abbrev pub IsPlain : Text → Type 0
IsPlain [] = Unit
IsPlain (x ∷ xs) = (x ≢ separator) × IsPlain xs

-- A component: not empty, and without separators.
abbrev pub IsToken : Text → Type 0
IsToken t = (t ≢ []) × IsPlain t

abbrev pub Each : (Text → Type 0) → List Text → Type 0
Each P [] = Unit
Each P (t ∷ ts) = P t × Each P ts

pub Each-append :
    (P : Text → Type 0) (ts us : List Text) → Each P ts → Each P us → Each P (ts ++ us)
Each-append P [] us h k = k
Each-append P (t ∷ ts) us (h, hs) k = (h, Each-append P ts us hs k)

IsPlain-append : (xs ys : Text) → IsPlain xs → IsPlain ys → IsPlain (xs ++ ys)
IsPlain-append [] ys h k = k
IsPlain-append (x ∷ xs) ys (h, hs) k = (h, IsPlain-append xs ys hs k)

add_token-Each :
    (t : Text) (ts : List Text) → IsPlain t → Each IsToken ts → Each IsToken (add_token t ts)
add_token-Each [] ts h k = k
add_token-Each (x ∷ xs) ts h k = (((λ e. cc), h), k)

tokens_from-Each : (t s : Text) → IsPlain t → Each IsToken (tokens_from t s)
unfolding tokens_from
tokens_from-Each t [] h = add_token-Each t [] h tt
tokens_from-Each t (x ∷ xs) h = elim (ℕ_discrete x separator) [
  | yes e ↦
      let at : (x == separator) ≡ true = ground (arith, e) in
      rw at (add_token-Each t (tokens_from [] xs) h (tokens_from-Each [] xs tt))
  | no ne ↦
      let at : (x == separator) ≡ false = ground (arith, ne) in
      rw at (tokens_from-Each (t ++ x ∷ []) xs (IsPlain-append t (x ∷ []) h (ne, tt)))
]

-- Each token that `strtok` returns is a component.
pub tokens-Each : (s : Text) → Each IsToken (tokens s)
unfolding tokens
tokens-Each s = tokens_from-Each [] s tt

tokens_from-plain : (t u s : Text) → IsPlain u → tokens_from t (u ++ s) ≡ tokens_from (t ++ u) s
unfolding tokens_from
tokens_from-plain t [] s h = ap (λ r. tokens_from r s) (sym (append-nil t))
tokens_from-plain t (x ∷ xs) s (h, hs) =
    let at : (x == separator) ≡ false = ground (arith, h) in
    rw at (
      tokens_from-plain (t ++ x ∷ []) xs s hs
      ∙ ap (λ r. tokens_from r s) (append_assoc t (x ∷ []) xs))

add_token-token : (t : Text) (ts : List Text) → t ≢ [] → add_token t ts ≡ t ∷ ts
add_token-token [] ts ne = absurd (ne refl)
add_token-token (x ∷ xs) ts ne = refl

tokens_from-join :
    (t : Text) (ts : List Text)
    → IsPlain t
    → Each IsToken ts
    → tokens_from t (join ts) ≡ add_token t ts
unfolding tokens_from join
tokens_from-join t [] h k = refl
tokens_from-join t (u ∷ ts) h (k, ks) =
    ap (add_token t) (
      tokens_from-plain [] u (join ts) k.1
      ∙ tokens_from-join u ts k.1 ks
      ∙ add_token-token u ts k.0)

-- The components of an assembled path are those that it was made of.
pub tokens-assemble : (ts : List Text) → Each IsToken ts → tokens (assemble ts) ≡ ts
unfolding tokens assemble tokens_from
tokens-assemble [] h = refl
tokens-assemble (t ∷ ts) h = tokens_from-join [] (t ∷ ts) tt h

add_token-append : (t : Text) (ts us : List Text) → add_token t (ts ++ us) ≡ add_token t ts ++ us
add_token-append [] ts us = refl
add_token-append (x ∷ xs) ts us = refl

tokens_from-append :
    (t s u : Text) → tokens_from t (s ++ separator ∷ u) ≡ tokens_from t s ++ tokens u
unfolding tokens_from tokens
tokens_from-append [] [] u = refl
tokens_from-append (x ∷ xs) [] u = refl
tokens_from-append t (x ∷ xs) u = elim (ℕ_discrete x separator) [
  | yes e ↦
      let at : (x == separator) ≡ true = ground (arith, e) in
      rw at (
        ap (add_token t) (tokens_from-append [] xs u)
        ∙ add_token-append t (tokens_from [] xs) (tokens u))
  | no ne ↦
      let at : (x == separator) ≡ false = ground (arith, ne) in
      rw at (tokens_from-append (t ++ x ∷ []) xs u)
]

-- A separator ends a component.
pub tokens-append : (s u : Text) → tokens (s ++ separator ∷ u) ≡ tokens s ++ tokens u
unfolding tokens
tokens-append s u = tokens_from-append [] s u

pub Each-split : (P : Text → Type 0) (ts us : List Text) → Each P (ts ++ us) → Each P ts × Each P us
Each-split P [] us h = (tt, h)
Each-split P (t ∷ ts) us (h, hs) = let (l, r) = Each-split P ts us hs in ((h, l), r)
