-- ===== src/Vfs/Names.antt =====
-- The names that `vfs_openFile` of kernel/src/fs/vfs.c reads from a path that has been assembled.
use omega_os.Base.{suc, ◌≡◌, refl, ap, ◌∙◌, sym, false, List, [], ◌∷◌, ◌++◌, ◌==◌, length, arith}
use mathlib.Core.List.{append-nil, append_assoc}
use omega_os.Path.{Text, separator, join, assemble}
use omega_os.Path.Tokens.{IsPlain, IsToken, Each}
use omega_os.Vfs.{path_depth, cut_from, first, path_names}

path_depth-plain : (t s : Text) → IsPlain t → path_depth (t ++ s) ≡ path_depth s
unfolding path_depth
path_depth-plain [] s plain = refl
path_depth-plain (x ∷ xs) s (other, plain) =
    let e : (x == separator) ≡ false = ground (arith, other) in rw e (path_depth-plain xs s plain)

path_depth-join : (ts : List Text) → Each IsToken ts → path_depth (join ts) ≡ length ts
unfolding path_depth join
path_depth-join [] each = refl
path_depth-join (t ∷ ts) ((_, plain), each) =
    ap suc (path_depth-plain t (join ts) plain ∙ path_depth-join ts each)

cut_from-plain : (name t s : Text) → IsPlain t → cut_from name (t ++ s) ≡ cut_from (name ++ t) s
unfolding cut_from
cut_from-plain name [] s plain = ap (λ r. cut_from r s) (sym (append-nil name))
cut_from-plain name (x ∷ xs) s (other, plain) =
    let e : (x == separator) ≡ false = ground (arith, other) in
    rw e (
      cut_from-plain (name ++ x ∷ []) xs s plain
      ∙ ap (λ r. cut_from r s) (append_assoc name (x ∷ []) xs))

cut_from-join :
    (name : Text) (ts : List Text) → Each IsToken ts → cut_from name (join ts) ≡ name ∷ ts
unfolding cut_from join
cut_from-join name [] each = refl
cut_from-join name (t ∷ ts) ((_, plain), each) =
    ap (λ us. name ∷ us) (cut_from-plain [] t (join ts) plain ∙ cut_from-join t ts each)

first-all : (ts : List Text) → first (length ts) ts ≡ ts
unfolding first
first-all [] = refl
first-all (t ∷ ts) = ap (λ us. t ∷ us) (first-all ts)

-- The names of an assembled path are its components.
pub path_names-assemble :
    (t : Text) (ts : List Text) → Each IsToken (t ∷ ts) → path_names (assemble (t ∷ ts)) ≡ t ∷ ts
unfolding path_names assemble join path_depth
path_names-assemble t ts ((some_byte, plain), each) =
    let depth : path_depth (t ++ join ts) ≡ length ts =
      path_depth-plain t (join ts) plain ∙ path_depth-join ts each in
    let cut : cut_from [] (t ++ join ts) ≡ t ∷ ts =
      cut_from-plain [] t (join ts) plain ∙ cut_from-join t ts each in
    rw (depth, cut) (first-all (t ∷ ts))
