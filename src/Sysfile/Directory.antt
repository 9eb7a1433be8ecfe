-- ===== src/Sysfile/Directory.antt =====
-- The working directory under the calls of kernel/src/fs/sysfile.c.
use omega_os.Base.{
  ℕ, zero, suc, ◌%◌, ◌^◌, ltb, ◌<◌, ◌≤◌, ◌≢◌, ◌≡◌, refl, sym, ap, ◌∙◌, ◌⊎◌, inl, inr, Bool, true,
  false, not, Option, none, some, [], ◌∷◌, if◌then◌else◌, ◌==◌, length, get_elem?, arith,
}
use omega_os.Base.Run.{
  Run, ok, panicked, fault, deadlock, out_of_fuel, Cmd, and_then, pure, ◌>>=◌, ◌>>◌, gets, modify,
}
use omega_os.Ide.{Buffer}
use omega_os.Path.{Text, normalize_path}
use omega_os.Vfs.{
  Node, Handlers, Ssize, done, failed, e_perm, e_inval, is_dir, vfs_read, vfs_write, vfs_open,
  vfs_close, vfs_open_file, vfs_create, vfs_mkdir, vfs_fseek,
}
use omega_os.Sysfile.{
  Files, on_drivers, process_add_file, process_close_file, add_open, create_open, sys_open,
  sys_close, sys_read, sys_write, sys_lseek, sys_chdir, sys_mkdir, creates, take, max_path,
  put_file, set_cwd, e_noent, e_nomem, e_notdir, set_file,
}

take-all : (n : ℕ) (s : Text) → length s ≤ n → take n s ≡ s
unfolding take
take-all zero [] h = refl
take-all zero (x ∷ xs) h = absurd (omega (arith, h))
take-all (suc n) [] h = refl
take-all (suc n) (x ∷ xs) h = ap (λ r. x ∷ r) (take-all n xs (omega (arith, h)))

module _ {D : Type 0} (handlers : ℕ → Handlers D) (root : Node) where
  abbrev pub State : Type 0
  State = Files handlers root

  abbrev pub dir_of : State → Text × ℕ
  dir_of s = (s.cwd, s.id)

  -- A command that leaves the working directory and the process's number alone when it returns.
  abbrev pub Keeps : {A : Type 0} → Cmd State A → Type 0
  Keeps m = (s : State) (a : _) (s' : State) → m s ≡ ok a s' → dir_of s' ≡ dir_of s

  pub ok-state : {A : Type 0} {a b : A} {s t : State} → ok a s ≡ ok b t → s ≡ t
  ok-state e = cc

  pub Keeps-pure : {A : Type 0} (a : A) → Keeps (pure a)
  Keeps-pure a s b s' e = ap dir_of (sym (ok-state e))

  bound :
      {A B : Type 0} (k : A → Cmd State B) (s : State) (r : Run State A) (b : B) (s' : State)
      → ((a : A) (t : State) → r ≡ ok a t → dir_of t ≡ dir_of s)
      → ((a : A) → Keeps (k a))
      → and_then r k ≡ ok b s'
      → dir_of s' ≡ dir_of s
  bound k s (ok a t) b s' first rest e = rest a t b s' e ∙ first a t refl
  bound k s panicked b s' first rest e = cc
  bound k s fault b s' first rest e = cc
  bound k s deadlock b s' first rest e = cc
  bound k s out_of_fuel b s' first rest e = cc

  pub Keeps-bind :
      {A B : Type 0} (m : Cmd State A) (k : A → Cmd State B)
      → Keeps m
      → ((a : A) → Keeps (k a))
      → Keeps (m >>= k)
  Keeps-bind m k first rest s b s' e = bound k s (m s) b s' (first s) rest e

  pub Keeps-if :
      {A : Type 0} (b : Bool) (m n : Cmd State A) → Keeps m → Keeps n → Keeps (if b then m else n)
  Keeps-if true m n h k = h
  Keeps-if false m n h k = k

  pub Keeps-found :
      {A : Type 0} (o : Option Node) (m : Cmd State A) (f : Node → Cmd State A)
      → Keeps m
      → ((n : Node) → Keeps (f n))
      → Keeps (elim o [ none ↦ m | some n ↦ f n ])
  Keeps-found none m f h k = h
  Keeps-found (some n) m f h k = k n

  pub Keeps-gets : {A : Type 0} (f : State → A) → Keeps (gets f)
  Keeps-gets f s b s' e = ap dir_of (sym (ok-state e))

  lifted :
      {A : Type 0} (r : Run D A) (s : State) (a : A) (s' : State)
      → (elim r as (λ _. Run State A) [
        | ok b d ↦ ok b (record s { drivers = d })
        | panicked ↦ panicked
        | fault ↦ fault
        | deadlock ↦ deadlock
        | out_of_fuel ↦ out_of_fuel
      ])
        ≡ ok a s'
      → dir_of s' ≡ dir_of s
  lifted (ok b d) s a s' e = ap dir_of (sym (ok-state e))
  lifted panicked s a s' e = cc
  lifted fault s a s' e = cc
  lifted deadlock s a s' e = cc
  lifted out_of_fuel s a s' e = cc

  pub Keeps-on_drivers : {A : Type 0} (m : Cmd D A) → Keeps (on_drivers handlers root m)
  Keeps-on_drivers m s a s' e = lifted (m s.drivers) s a s' e

  add_open-Keeps : (node : Node) (flags : ℕ) → Keeps (add_open handlers root node flags)
  unfolding add_open process_add_file
  add_open-Keeps node flags =
      Keeps-bind
        (on_drivers handlers root
          (vfs_open handlers root (some (record node { attr = flags })) flags))
        (λ _. process_add_file handlers root (record node { attr = flags }))
        (Keeps-on_drivers (vfs_open handlers root (some (record node { attr = flags })) flags))
        (λ _ s a s' e. ap dir_of (sym (ok-state e)))

  opened_file :
      (o : Option Node) (flags : ℕ)
      → Keeps (elim o [ none ↦ pure (failed e_perm) | some n ↦ add_open handlers root n flags ])
  opened_file o flags =
      Keeps-found o (pure (failed e_perm)) (λ n. add_open handlers root n flags)
        (Keeps-pure (failed e_perm)) (λ n. add_open-Keeps n flags)

  create_open-Keeps : (path : Text) (flags : ℕ) → Keeps (create_open handlers root path flags)
  unfolding create_open
  create_open-Keeps path flags =
      Keeps-if (not (creates flags)) (pure (failed e_noent)) _ (Keeps-pure (failed e_noent)) (
        Keeps-bind (gets (λ s. s.cwd)) _ (Keeps-gets (λ s. s.cwd)) (λ cwd.
          Keeps-bind (on_drivers handlers root (vfs_create handlers root cwd path flags)) _
            (Keeps-on_drivers (vfs_create handlers root cwd path flags))
            (λ ret. Keeps-if (not (ret == 0)) (pure (failed ret)) _ (Keeps-pure (failed ret)) (
              Keeps-bind (on_drivers handlers root (vfs_open_file handlers root cwd path flags)) _
                (Keeps-on_drivers (vfs_open_file handlers root cwd path flags))
                (λ node. opened_file node flags)))))

  pub sys_open-Keeps : (path : Option Text) (flags : ℕ) → Keeps (sys_open handlers root path flags)
  unfolding sys_open
  sys_open-Keeps none flags = Keeps-pure (failed e_inval)
  sys_open-Keeps (some path) flags =
      Keeps-bind (gets (λ s. s.cwd)) _ (Keeps-gets (λ s. s.cwd)) (λ cwd.
        Keeps-bind (on_drivers handlers root (vfs_open_file handlers root cwd path flags)) _
          (Keeps-on_drivers (vfs_open_file handlers root cwd path flags))
          (λ node.
            Keeps-found node (create_open handlers root path flags)
              (λ n. add_open handlers root n flags) (create_open-Keeps path flags)
              (λ n. add_open-Keeps n flags)))

  pub process_close_file-Keeps : (fd : ℕ) → Keeps (process_close_file handlers root fd)
  unfolding process_close_file
  process_close_file-Keeps fd =
      Keeps-bind (gets (λ s. get_elem? s.fdt fd)) _ (Keeps-gets (λ s. get_elem? s.fdt fd)) (λ node.
        Keeps-found node (pure false)
          (λ n. on_drivers handlers root (vfs_close handlers root false (some n)) >> pure true)
          (Keeps-pure false)
          (λ n.
            Keeps-bind (on_drivers handlers root (vfs_close handlers root false (some n)))
              (λ _. pure true) (Keeps-on_drivers (vfs_close handlers root false (some n)))
              (λ _. Keeps-pure true)))

  pub sys_close-Keeps : (fd : ℕ) → Keeps (sys_close handlers root fd)
  unfolding sys_close
  sys_close-Keeps fd =
      Keeps-bind (process_close_file handlers root fd)
        (λ closed. if closed then pure (done 0) else pure (failed e_noent))
        (process_close_file-Keeps fd)
        (λ closed.
          Keeps-if closed (pure (done 0)) (pure (failed e_noent)) (Keeps-pure (done 0))
            (Keeps-pure (failed e_noent)))

  -- A call on the open file at `fd`.
  at_file :
      {A : Type 0} (fd : ℕ) (missing : A) (f : Node → Cmd State A)
      → ((n : Node) → Keeps (f n))
      → Keeps (
          gets (λ s. get_elem? s.fdt fd) >>= λ node. elim node [
            | none ↦ pure missing
            | some n ↦ f n
          ])
  at_file fd missing f each =
      Keeps-bind (gets (λ s. get_elem? s.fdt fd)) _ (Keeps-gets (λ s. get_elem? s.fdt fd))
        (λ node. Keeps-found node (pure missing) f (Keeps-pure missing) each)

  put_file-Keeps : (fd : ℕ) (node : Option Node) → Keeps (put_file handlers root fd node)
  unfolding put_file
  put_file-Keeps fd none = Keeps-pure tt
  put_file-Keeps fd (some node) = λ s a s' e. ap dir_of (sym (ok-state e))

  pub sys_read-Keeps :
      (fd : ℕ) (buf : Option Buffer) (count : ℕ) → Keeps (sys_read handlers root fd buf count)
  unfolding sys_read
  sys_read-Keeps fd none count = Keeps-pure (failed e_inval, none)
  sys_read-Keeps fd (some buf) count =
      at_file fd (failed e_noent, some buf) _
        (λ n.
          Keeps-bind
            (on_drivers handlers root
              (vfs_read handlers root (some n) (n.offset % 2 ^ 32) count buf))
            _ (Keeps-on_drivers (vfs_read handlers root (some n) (n.offset % 2 ^ 32) count buf))
            (λ r.
              Keeps-bind (put_file handlers root fd r.1) _ (put_file-Keeps fd r.1)
                (λ _. Keeps-pure (r.0, some r.2))))

  pub sys_write-Keeps :
      (fd : ℕ) (buf : Option Buffer) (count : ℕ) → Keeps (sys_write handlers root fd buf count)
  unfolding sys_write
  sys_write-Keeps fd none count = Keeps-pure (failed e_inval)
  sys_write-Keeps fd (some buf) count = at_file fd (failed e_noent) _ (λ n.
      Keeps-bind
        (on_drivers handlers root (vfs_write handlers root (some n) (n.offset % 2 ^ 32) count buf))
        _ (Keeps-on_drivers (vfs_write handlers root (some n) (n.offset % 2 ^ 32) count buf))
        (λ r.
          Keeps-bind (put_file handlers root fd r.1) _ (put_file-Keeps fd r.1)
            (λ _. Keeps-pure r.0)))

  seek-Keeps :
      (fd ret : ℕ) (moved : Option Node)
      → Keeps (elim moved as (λ _. Cmd State Ssize) [
        | none ↦ pure (done ret)
        | some m ↦ (do modify (λ s. record s { fdt = set_file s.fdt fd m }); pure (done ret))
      ])
  seek-Keeps fd ret none = Keeps-pure (done ret)
  seek-Keeps fd ret (some m) =
      Keeps-bind (modify (λ s. record s { fdt = set_file s.fdt fd m })) (λ _. pure (done ret))
        (λ s a s' e. ap dir_of (sym (ok-state e))) (λ _. Keeps-pure (done ret))

  pub sys_lseek-Keeps : (fd offset whence : ℕ) → Keeps (sys_lseek handlers root fd offset whence)
  unfolding sys_lseek
  sys_lseek-Keeps fd offset whence =
      at_file fd (failed e_noent) _ (λ n.
        seek-Keeps fd (vfs_fseek (some n) offset whence).0 (vfs_fseek (some n) offset whence).1)

  pub sys_mkdir-Keeps : (name : Option Text) (attr : ℕ) → Keeps (sys_mkdir handlers root name attr)
  unfolding sys_mkdir
  sys_mkdir-Keeps none attr = Keeps-pure e_inval
  sys_mkdir-Keeps (some name) attr =
      Keeps-bind (gets (λ s. s.cwd)) _ (Keeps-gets (λ s. s.cwd))
        (λ cwd. Keeps-on_drivers (vfs_mkdir handlers root cwd name attr))

  -- What `sys_chdir` does at its end: an error changes nothing, and 0 is returned with the new path.
  abbrev pub Entered : (path : Text) (e : ℕ) (s s' : State) → Type 0
  Entered path e s s' = (e ≢ 0) × (dir_of s' ≡ dir_of s) ⊎ (e ≡ 0) × (dir_of s' ≡ (path, s.id))

  -- The last steps of `sys_chdir`.
  abbrev entered : Text → Option Node → Cmd State ℕ
  entered path none = pure e_noent
  entered path (some n) =
      if not (is_dir n) then pure e_notdir else (do set_cwd handlers root path; pure 0)

  ok-value : {A : Type 0} {a b : A} {s t : State} → ok a s ≡ ok b t → a ≡ b
  ok-value e = cc

  Entered-if :
      (b : Bool) (path : Text) (s : State) (e : ℕ) (s' : State)
      → length path < max_path
      → (if b then pure e_notdir else (do set_cwd handlers root path; pure 0)) s ≡ ok e s'
      → Entered path e s s'
  unfolding set_cwd
  Entered-if true path s e s' short run =
      inl (λ z. absurd (omega (arith, z, ok-value run)), ap dir_of (sym (ok-state run)))
  Entered-if false path s e s' short run =
      let fits : ltb (length path) max_path ≡ true = ground (arith, short) in
      let cut : take max_path path ≡ path = take-all max_path path (omega (arith, short)) in
      inr (sym (ok-value run), ap dir_of (sym (ok-state run)) ∙ (rw (fits, cut) refl))

  Entered-from :
      (path : Text) (e : ℕ) (s t s' : State)
      → dir_of t ≡ dir_of s
      → Entered path e t s'
      → Entered path e s s'
  Entered-from path e s t s' first (inl (error, same)) = inl (error, same ∙ first)
  Entered-from path e s t s' first (inr (zero_, moved)) =
      inr (zero_, moved ∙ ap (λ (d : Text × ℕ). (path, d.1)) first)

  entered-cwd :
      (path : Text) (s : State) (r : Run State (Option Node)) (e : ℕ) (s' : State)
      → length path < max_path
      → ((o : Option Node) (t : State) → r ≡ ok o t → dir_of t ≡ dir_of s)
      → and_then r (entered path) ≡ ok e s'
      → Entered path e s s'
  entered-cwd path s (ok none t) e s' short first run = inl (
    λ z. absurd (omega (arith, z, ok-value run)),
    ap dir_of (sym (ok-state run)) ∙ first none t refl,
  )
  entered-cwd path s (ok (some n) t) e s' short first run =
      Entered-from path e s t s' (first (some n) t refl)
        (Entered-if (not (is_dir n)) path t e s' short run)
  entered-cwd path s panicked e s' short first run = cc
  entered-cwd path s fault e s' short first run = cc
  entered-cwd path s deadlock e s' short first run = cc
  entered-cwd path s out_of_fuel e s' short first run = cc

  chdir_run :
      (path new_path : Text) (s : State)
      → normalize_path true true true s.cwd path ≡ some new_path
      → sys_chdir handlers root (some path) s
        ≡ and_then
            (on_drivers handlers root (vfs_open_file handlers root s.cwd new_path 0) s)
            (entered new_path)
  unfolding sys_chdir
  chdir_run path new_path s e =
      ap
        (λ o.
          (elim o as (λ _. Cmd State ℕ) [
            | none ↦ pure e_nomem
            | some p ↦
                on_drivers handlers root (vfs_open_file handlers root s.cwd p 0) >>= entered p
          ])
            s)
        e

  -- `sys_chdir` with a path that fits the buffer with its null byte.
  pub sys_chdir-Entered :
      (path new_path : Text) (s s' : State) (e : ℕ)
      → normalize_path true true true s.cwd path ≡ some new_path
      → length new_path < max_path
      → sys_chdir handlers root (some path) s ≡ ok e s'
      → Entered new_path e s s'
  sys_chdir-Entered path new_path s s' e normal short run =
      let opens : Cmd State (Option Node) =
        on_drivers handlers root (vfs_open_file handlers root s.cwd new_path 0) in
      entered-cwd new_path s (opens s) e s' short
        (Keeps-on_drivers (vfs_open_file handlers root s.cwd new_path 0) s)
        (sym (chdir_run path new_path s normal) ∙ run)
