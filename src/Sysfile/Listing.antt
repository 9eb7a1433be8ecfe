-- ===== src/Sysfile/Listing.antt =====
-- The calls on directories of kernel/src/fs/sysfile.c leave the working directory alone.
use omega_os.Base.{ℕ, ◌+◌, sym, ap, Bool, not, Option, none, some, length, get_elem?}
use omega_os.Base.Run.{pure, gets}
use omega_os.Path.{Text}
use omega_os.Vfs.{Node, Handlers, vfs_open_file, vfs_readdir}
use omega_os.Sysfile.{
  Dir, on_drivers, process_add_file, process_close_file, sys_opendir, sys_closedir, sys_readdir,
}
use omega_os.Sysfile.Directory.{
  dir_of, Keeps, ok-state, Keeps-pure, Keeps-bind, Keeps-if, Keeps-found, Keeps-gets,
  Keeps-on_drivers, process_close_file-Keeps,
}

module _ {D : Type 0} (handlers : ℕ → Handlers D) (root : Node) where
  add_file-Keeps : (n : Node) → Keeps handlers root (process_add_file handlers root n)
  unfolding process_add_file
  add_file-Keeps n s a s' e = ap (dir_of handlers root) (sym (ok-state handlers root e))

  pub sys_opendir-Keeps :
      (memory : Bool) (name : Option Text)
      → Keeps handlers root (sys_opendir handlers root memory name)
  unfolding sys_opendir
  sys_opendir-Keeps memory none = Keeps-pure handlers root none
  sys_opendir-Keeps memory (some name) =
      Keeps-bind handlers root (gets (λ s. s.cwd)) _ (Keeps-gets handlers root (λ s. s.cwd)) (λ cwd.
        Keeps-bind handlers root (on_drivers handlers root (vfs_open_file handlers root cwd name 0))
          _ (Keeps-on_drivers handlers root (vfs_open_file handlers root cwd name 0))
          (λ node.
            Keeps-found handlers root node (pure none) _ (Keeps-pure handlers root none) (λ n.
              Keeps-bind handlers root (gets (λ s. length s.fdt)) _
                (Keeps-gets handlers root (λ s. length s.fdt))
                (λ fd.
                  Keeps-bind handlers root (process_add_file handlers root n) _ (add_file-Keeps n)
                    (λ _.
                      Keeps-if handlers root (not memory) (pure none) _
                        (Keeps-pure handlers root none)
                        (Keeps-pure handlers root
                          (some (record { fd = fd; current_entry = 0 }))))))))

  pub sys_closedir-Keeps :
      (dir : Option (Dir handlers root)) → Keeps handlers root (sys_closedir handlers root dir)
  unfolding sys_closedir
  sys_closedir-Keeps none = λ s a s' e. cc
  sys_closedir-Keeps (some dir) =
      Keeps-bind handlers root (process_close_file handlers root dir.fd) (λ _. pure tt)
        (process_close_file-Keeps handlers root dir.fd) (λ _. Keeps-pure handlers root tt)

  pub sys_readdir-Keeps :
      (dir : Option (Dir handlers root)) → Keeps handlers root (sys_readdir handlers root dir)
  unfolding sys_readdir
  sys_readdir-Keeps none = λ s a s' e. cc
  sys_readdir-Keeps (some dir) =
      Keeps-bind handlers root (gets (λ s. get_elem? s.fdt dir.fd)) _
        (Keeps-gets handlers root (λ s. get_elem? s.fdt dir.fd))
        (λ node.
          Keeps-found handlers root node (pure (none, dir)) _ (Keeps-pure handlers root (none, dir))
            (λ n.
              Keeps-bind handlers root
                (on_drivers handlers root (vfs_readdir handlers root (some n) dir.current_entry)) _
                (Keeps-on_drivers handlers root
                  (vfs_readdir handlers root (some n) dir.current_entry))
                (λ entry.
                  Keeps-pure handlers root
                    (entry, record dir { current_entry = dir.current_entry + 1 }))))
