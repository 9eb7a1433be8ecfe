-- ===== src/Sysfile/Calls.antt =====
-- Sequences of the calls of kernel/src/fs/sysfile.c.
use omega_os.Base.{ℕ, ◌<◌, ◌≡◌, Bool, true, Option, some, length, ◌==◌, if◌then◌else◌}
use omega_os.Base.Run.{ok}
use omega_os.Ide.{Buffer}
use omega_os.Path.{Text, tokens, assemble, normalize_path}
use omega_os.Path.Resolve.{full, resolve}
use omega_os.Vfs.{Node, Handlers, Ssize}
use omega_os.Sysfile.{
  Dir, sys_opendir, sys_readdir, sys_closedir, sys_open, sys_close, sys_read, sys_write, sys_lseek,
  sys_chdir, sys_mkdir, max_path,
}
use omega_os.Sysfile.Directory.{State}

module _ {D : Type 0} (handlers : ℕ → Handlers D) (root : Node) where
  -- The calls of a process, each of which has returned. A new working directory fits its
  -- buffer with the null byte behind it.
  pub data Calls : State handlers root → State handlers root → Type 0 where
    start : {s : State handlers root} → Calls s s
    opens :
        {s t u : State handlers root} (path : Option Text) (flags : ℕ) (r : Ssize)
        → sys_open handlers root path flags s ≡ ok r t
        → Calls t u
        → Calls s u
    closes :
        {s t u : State handlers root} (fd : ℕ) (r : Ssize)
        → sys_close handlers root fd s ≡ ok r t
        → Calls t u
        → Calls s u
    reads :
        {s t u : State handlers root} (fd : ℕ) (buf : Option Buffer) (count : ℕ)
        (r : Ssize × Option Buffer)
        → sys_read handlers root fd buf count s ≡ ok r t
        → Calls t u
        → Calls s u
    writes :
        {s t u : State handlers root} (fd : ℕ) (buf : Option Buffer) (count : ℕ) (r : Ssize)
        → sys_write handlers root fd buf count s ≡ ok r t
        → Calls t u
        → Calls s u
    seeks :
        {s t u : State handlers root} (fd offset whence : ℕ) (r : Ssize)
        → sys_lseek handlers root fd offset whence s ≡ ok r t
        → Calls t u
        → Calls s u
    makes :
        {s t u : State handlers root} (name : Option Text) (attr : ℕ) (r : ℕ)
        → sys_mkdir handlers root name attr s ≡ ok r t
        → Calls t u
        → Calls s u
    lists :
        {s t u : State handlers root} (memory : Bool) (name : Option Text)
        (r : Option (Dir handlers root))
        → sys_opendir handlers root memory name s ≡ ok r t
        → Calls t u
        → Calls s u
    reads_entry :
        {s t u : State handlers root} (dir : Option (Dir handlers root))
        (r : Option Text × Dir handlers root)
        → sys_readdir handlers root dir s ≡ ok r t
        → Calls t u
        → Calls s u
    unlists :
        {s t u : State handlers root} (dir : Option (Dir handlers root))
        → sys_closedir handlers root dir s ≡ ok tt t
        → Calls t u
        → Calls s u
    enters :
        {s t u : State handlers root} (path : Text) (r : ℕ)
        → ((p : Text) → normalize_path true true true s.cwd path ≡ some p → length p < max_path)
        → sys_chdir handlers root (some path) s ≡ ok r t
        → Calls t u
        → Calls s u

  -- The path that the process has spelled: the directory it began in, followed by the paths with
  -- which `sys_chdir` has succeeded.
  unfoldable pub walked : {s u : State handlers root} → Calls s u → Text → Text
  walked start path = path
  walked (opens _ _ _ _ rest) path = walked rest path
  walked (closes _ _ _ rest) path = walked rest path
  walked (reads _ _ _ _ _ rest) path = walked rest path
  walked (writes _ _ _ _ _ rest) path = walked rest path
  walked (seeks _ _ _ _ _ rest) path = walked rest path
  walked (makes _ _ _ _ rest) path = walked rest path
  walked (lists _ _ _ _ rest) path = walked rest path
  walked (reads_entry _ _ _ rest) path = walked rest path
  walked (unlists _ _ rest) path = walked rest path
  walked (enters name r _ _ rest) path = walked rest (if r == 0 then full path name else path)

  -- The working directory and the number of a process.
  abbrev pub IsAt : (spelled : Text) (id : ℕ) → State handlers root → Type 0
  IsAt spelled id s = (s.cwd ≡ assemble (resolve (tokens spelled))) × (s.id ≡ id)
