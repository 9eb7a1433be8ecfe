-- ===== src/Vfs/Open.antt =====
-- Opening and creating files by their path, of kernel/src/fs/vfs.c.
use omega_os.Base.{
  ℕ, suc, ◌+◌, ◌≡◌, ◌≢◌, refl, sym, ap, ◌∙◌, true, false, Option, none, some, List, [], ◌∷◌, ◌++◌,
  ◌==◌, if◌then◌else◌, length, arith,
}
use mathlib.Core.List.{append_assoc, append-nil}
use omega_os.Base.Run.{
  Run, ok, panicked, fault, deadlock, out_of_fuel, Cmd, and_then, pure, ◌>>=◌, ◌>>◌,
}
use omega_os.Path.{Text, separator, up_dir, join, assemble, normalize_path}
use omega_os.Path.Tokens.{IsPlain, Each, Each-split}
use omega_os.Vfs.Names.{path_names-assemble}
use omega_os.Path.Normal.{
  IsName, names-tokens, normalize_path-parent, normalize_path-fixed, pop-append,
}
use omega_os.Vfs.{
  Node, Handlers, e_perm, last_separator, string_at, vfs_finddir, vfs_open, open_below,
  vfs_open_file, in_parent, vfs_create,
}

and_then-ext :
    {S A B : Type 0} (r : Run S A) (k h : A → Cmd S B)
    → ((a : A) (s : S) → k a s ≡ h a s)
    → and_then r k ≡ and_then r h
and_then-ext (ok a s) k h e = e a s
and_then-ext panicked k h e = refl
and_then-ext fault k h e = refl
and_then-ext deadlock k h e = refl
and_then-ext out_of_fuel k h e = refl

and_then_assoc :
    {S A B C : Type 0} (r : Run S A) (k : A → Cmd S B) (h : B → Cmd S C)
    → and_then (and_then r k) h ≡ and_then r (λ a s. and_then (k a s) h)
and_then_assoc (ok a s) k h = refl
and_then_assoc panicked k h = refl
and_then_assoc fault k h = refl
and_then_assoc deadlock k h = refl
and_then_assoc out_of_fuel k h = refl

module _ {D : Type 0} (handlers : ℕ → Handlers D) (root : Node) where
  -- What a node and the components below it name, with no node opened.
  unfoldable pub look_up : Node → List Text → Cmd D (Option Node)
  look_up node [] = pure (some node)
  look_up node (name ∷ rest) = do
    next ← vfs_finddir handlers root (some node) name
    elim next [ none ↦ pure none | some n ↦ look_up n rest ]

  abbrev pub opened : ℕ → Option Node → Cmd D (Option Node)
  opened attr none = pure none
  opened attr (some node) = do vfs_open handlers root (some node) attr; pure (some node)

  -- The file of these components: the root directory, or what is found from it, opened.
  abbrev pub open_path : List Text → ℕ → Cmd D (Option Node)
  open_path [] attr = pure (some root)
  open_path (t ∷ ts) attr = look_up root (t ∷ ts) >>= opened attr

  abbrev found : (Node → Cmd D (Option Node)) → Option Node → Cmd D (Option Node)
  found f none = pure none
  found f (some n) = f n

  found-opened :
      (attr : ℕ) (f g : Node → Cmd D (Option Node))
      → ((n : Node) (e : D) → f n e ≡ (g n >>= opened attr) e)
      → (next : Option Node) (e : D) → found f next e ≡ and_then (found g next e) (opened attr)
  found-opened attr f g same none e = refl
  found-opened attr f g same (some n) e = same n e

  bind-opened :
      (m : Cmd D (Option Node)) (attr : ℕ) (f g : Node → Cmd D (Option Node))
      → ((n : Node) (e : D) → f n e ≡ (g n >>= opened attr) e)
      → (d : D) → (m >>= found f) d ≡ (m >>= found g >>= opened attr) d
  bind-opened m attr f g same d =
      and_then-ext (m d) (found f) (λ next e. and_then (found g next e) (opened attr))
        (found-opened attr f g same)
      ∙ sym (and_then_assoc (m d) (found g) (opened attr))

  open_below-look_up :
      (node : Node) (t : Text) (ts : List Text) (attr : ℕ) (d : D)
      → open_below handlers root node (t ∷ ts) attr d ≡ (look_up node (t ∷ ts) >>= opened attr) d
  unfolding open_below look_up
  open_below-look_up node t [] attr d =
      bind-opened (vfs_finddir handlers root (some node) t) attr
        (λ n. vfs_open handlers root (some n) attr >> pure (some n)) (λ n. pure (some n))
        (λ n e. refl) d
  open_below-look_up node t (u ∷ us) attr d =
      bind-opened (vfs_finddir handlers root (some node) t) attr
        (λ n. open_below handlers root n (u ∷ us) attr) (λ n. look_up n (u ∷ us))
        (λ n e. open_below-look_up n u us attr e) d

  length-root : (length (assemble []) == 1) ≡ true
  unfolding assemble
  length-root = refl

  length-assemble : (t : Text) (ts : List Text) → t ≢ [] → (length (assemble (t ∷ ts)) == 1) ≡ false
  unfolding assemble join
  length-assemble [] ts ne = absurd (ne refl)
  length-assemble (x ∷ xs) ts ne = ground arith

  -- `vfs_openFile` of a name that is normalized to these components looks them up from the root
  -- directory and opens the last one; the root directory itself is returned unopened.
  pub vfs_open_file-open_path :
      (cwd name : Text) (attr : ℕ) (ts : List Text) (d : D)
      → Each IsName ts
      → normalize_path true true true cwd name ≡ some (assemble ts)
      → vfs_open_file handlers root cwd name attr d ≡ open_path ts attr d
  unfolding vfs_open_file
  vfs_open_file-open_path cwd name attr [] d names e = rw (vfs_open_file, e, length-root) refl
  vfs_open_file-open_path cwd name attr (t ∷ ts) d names e =
      let ((ne, plain), _, _) = names.0 in
      rw
        (
          vfs_open_file,
          e,
          length-assemble t ts ne,
          path_names-assemble t ts (names-tokens (t ∷ ts) names),
        )
        (open_below-look_up root t ts attr d)

-- The last separator stands before the last component.
last_separator-plain : (i : ℕ) (t : Text) (f : ℕ) → IsPlain t → last_separator i t f ≡ f
unfolding last_separator
last_separator-plain i [] f h = refl
last_separator-plain i (x ∷ xs) f (h, hs) =
    let e : (x == separator) ≡ false = ground (arith, h) in
    rw e (last_separator-plain (i + 1) xs f hs)

last_separator-append :
    (i : ℕ) (xs t : Text) (f : ℕ)
    → IsPlain t
    → last_separator i (xs ++ separator ∷ t) f ≡ i + length xs
unfolding last_separator
last_separator-append i [] t f h =
    last_separator-plain (i + 1) t i h ∙ (let e : i ≡ i + 0 = omega arith in e)
last_separator-append i (x ∷ xs) t f h =
    last_separator-append (i + 1) xs t (if x == separator then i else f) h
    ∙ (let e : i + 1 + length xs ≡ i + suc (length xs) = omega arith in e)

string_at-append : (xs ys : Text) → string_at (length xs) (xs ++ ys) ≡ some ys
unfolding string_at
string_at-append [] ys = refl
string_at-append (x ∷ xs) ys = string_at-append xs ys

join-snoc : (ts : List Text) (t : Text) → join (ts ++ t ∷ []) ≡ join ts ++ separator ∷ t
unfolding join
join-snoc [] t = ap (λ r. separator ∷ r) (append-nil t)
join-snoc (u ∷ us) t =
    ap (λ r. separator ∷ r)
      (ap (λ r. u ++ r) (join-snoc us t) ∙ sym (append_assoc u (join us) (separator ∷ t)))

assemble-snoc : (ts : List Text) (t : Text) → assemble (ts ++ t ∷ []) ≡ join ts ++ separator ∷ t
unfolding assemble join
assemble-snoc [] t = join-snoc [] t
assemble-snoc (u ∷ us) t = join-snoc (u ∷ us) t

-- The name that `getParent` finds in a normalized path.
file_name :
    (ts : List Text) (t : Text)
    → IsPlain t
    → string_at (last_separator 0 (assemble (ts ++ t ∷ [])) 0) (assemble (ts ++ t ∷ []))
      ≡ some (separator ∷ t)
file_name ts t h =
    ap (λ p. string_at (last_separator 0 p 0) p) (assemble-snoc ts t)
    ∙ ap (λ n. string_at n (join ts ++ separator ∷ t))
        (last_separator-append 0 (join ts) t 0 h
          ∙ (let e : 0 + length (join ts) ≡ length (join ts) = omega arith in e))
    ∙ string_at-append (join ts) (separator ∷ t)

module _ {D : Type 0} (handlers : ℕ → Handlers D) (root : Node) where
  -- What `vfs_create` does with the directory, for the two ways to get the name of the file.
  abbrev create_in : Option Text → ℕ → Option Node → Cmd D ℕ
  create_in file attr none = pure e_perm
  create_in file attr (some p) =
      elim (elim ((handlers p.driver).create) as (λ _. Option (Text → Cmd D ℕ)) [
        | none ↦ none
        | some f ↦ some (λ name. f p name attr)
      ]) [ none ↦ pure e_perm | some f ↦ elim file [ none ↦ (λ d. fault) | some name ↦ f name ] ]

  abbrev pub created_in : Text → ℕ → Option Node → Cmd D ℕ
  created_in name attr none = pure e_perm
  created_in name attr (some p) = elim ((handlers p.driver).create) [
    | none ↦ pure e_perm
    | some f ↦ f p name attr
  ]

  create_in-name :
      (name : Text) (attr : ℕ) (parent : Option Node) (d : D)
      → create_in (some name) attr parent d ≡ created_in name attr parent d
  create_in-name name attr none d = refl
  create_in-name name attr (some p) d = go ((handlers p.driver).create)
    where
      go :
          (create : Option (Node → Text → ℕ → Cmd D ℕ))
          → (elim (elim create as (λ _. Option (Text → Cmd D ℕ)) [
            | none ↦ none
            | some f ↦ some (λ n. f p n attr)
          ])
                as (λ _. Cmd D ℕ) [ none ↦ pure e_perm | some f ↦ f name ])
              d
            ≡ (elim create as (λ _. Cmd D ℕ) [ none ↦ pure e_perm | some f ↦ f p name attr ]) d
      go none = refl
      go (some f) = refl

  create_path :
      (cwd : Text) (attr : ℕ) (path name : Text) (d : D)
      → normalize_path true true true cwd name ≡ some path
      → vfs_create handlers root cwd name attr d
        ≡ and_then
            (vfs_open_file handlers root cwd (path ++ separator ∷ up_dir) attr d)
            (create_in (string_at (last_separator 0 path 0) name) attr)
  unfolding vfs_create in_parent
  create_path cwd attr path name d e = rw (vfs_create, in_parent, e)

  -- `vfs_create` of a normalized path, which is absolute, asks the driver of the directory that the
  -- other components name to create the file, and hands it the last component with the separator
  -- still before it. It is not permitted when there is no such directory or its driver cannot create.
  pub vfs_create-normalized :
      (cwd : Text) (attr : ℕ) (ts : List Text) (t : Text) (d : D)
      → Each IsName (ts ++ t ∷ [])
      → vfs_create handlers root cwd (assemble (ts ++ t ∷ [])) attr d
        ≡ and_then (open_path handlers root ts attr d) (created_in (separator ∷ t) attr)
  vfs_create-normalized cwd attr ts t d names =
      let us : List Text = ts ++ t ∷ [] in
      let (before, (((_, plain), _, _), _)) = Each-split IsName ts (t ∷ []) names in
      create_path cwd attr (assemble us) (assemble us) d (normalize_path-fixed cwd us names)
      ∙ ap
          (λ r.
            and_then r
              (create_in (string_at (last_separator 0 (assemble us) 0) (assemble us)) attr))
          (vfs_open_file-open_path handlers root cwd (assemble us ++ separator ∷ up_dir) attr ts d
            before
            (normalize_path-parent cwd us names ∙ ap (λ l. some (assemble l)) (pop-append ts t)))
      ∙ ap (λ file. and_then (open_path handlers root ts attr d) (create_in file attr))
          (file_name ts t plain)
      ∙ and_then-ext (open_path handlers root ts attr d) (create_in (some (separator ∷ t)) attr)
          (created_in (separator ∷ t) attr) (create_in-name (separator ∷ t) attr)
