-- ===== src/SysFile/Opening.antt =====
-- kernel/sysfile.c: sys_open, sys_mkdir, sys_mknod and sys_chdir.
use csse332_project.Base.{
  ℕ, ◌/◌, ◌%◌, Bool, true, false, not, ◌&&◌, ◌||◌, Option, none, some, List, ◌==◌, leb,
  if◌then◌else◌, set, Outcome, ok, ◌>>=◌,
}
use csse332_project.FileSystem.{Superblock, Inode}
use csse332_project.FileSystem.Content.{itrunc}
use csse332_project.FileSystem.Table.{Tree, fetch, put, ilock, iunlock, iput, iunlockput}
use csse332_project.FileSystem.Directory.{type_dir}
use csse332_project.FileSystem.Paths.{namei}
use csse332_project.Files.{File, fd_inode, fd_device, get_file, filealloc}
use csse332_project.Files.Access.{World, begins, ends, call_log, device_count, fileclose}
use csse332_project.SysFile.{User, with_tree}
use csse332_project.SysFile.Descriptors.{fdalloc}
use csse332_project.SysFile.Names.{type_file, type_device, in_transaction, create}

-- `omode & O_WRONLY`, `O_RDWR`, `O_CREATE` and `O_TRUNC`
abbrev pub wants_write : ℕ → Bool
wants_write omode = omode % 2 == 1

abbrev pub wants_both : ℕ → Bool
wants_both omode = omode / 2 % 2 == 1

abbrev pub wants_create : ℕ → Bool
wants_create omode = omode / 512 % 2 == 1

abbrev pub wants_trunc : ℕ → Bool
wants_trunc omode = omode / 1024 % 2 == 1

-- The fields that sys_open sets.
pub opened : (i omode : ℕ) → Inode → File → File
opened i omode ip f =
    let g =
      if ip.type == type_device
      then record f { type = fd_device; major = ip.major }
      else record f { type = fd_inode; off = 0 } in
    record g {
      ip = i;
      readable = not (wants_write omode);
      writable = wants_write omode || wants_both omode;
    }

module _ (sb : Superblock) (pid : ℕ) where
  -- The first part of sys_open: the inode, locked.
  pub open_inode : (cwd omode : ℕ) → List ℕ → Tree → Outcome (Tree × Option ℕ)
  open_inode cwd omode path t =
      let made : Outcome (Tree × Option ℕ) = create sb pid cwd path type_file 0 0 t in
      let found : Outcome (Tree × Option ℕ) =
        (namei sb pid cwd path t >>= λ n. elim (n.inode) [
          | none ↦ ok (n.tree, none)
          | some i ↦ do
            t1 ← ilock sb pid i n.tree
            ip ← fetch i t1
            let refuse : Outcome (Tree × Option ℕ) =
                (iunlockput sb pid i t1 >>= λ t2. ok (t2, none))
            if ip.type == type_dir && not (omode == 0) then refuse else ok (t1, some i)
        ]) in
      if wants_create omode then made else found

  -- iunlockput, and -1.
  pub give_up : (i : ℕ) → User → Outcome (User × Option ℕ)
  give_up i u =
      iunlockput sb pid i u.world.tree >>= λ t. ok (record u { world = with_tree t u.world }, none)

  -- The file and its descriptor for the locked inode `i`.
  pub install : (i omode : ℕ) → User → Outcome (User × Option ℕ)
  install i omode u = do
    ip ← fetch i u.world.tree
    let (files, made) = filealloc u.world.files
    elim made as (λ o. Outcome (User × Option ℕ)) [
      | none ↦ give_up i u
      | some k ↦
          let w : World = record (u.world) { files = files } in
          let (ofile, place) = fdalloc k u.ofile in
          elim place as (λ o. Outcome (User × Option ℕ)) [
            | none ↦ fileclose sb pid k w >>= λ w1. give_up i (record u { world = w1 })
            | some fd ↦ do
              f ← get_file k files
              t1 ←
                  if wants_trunc omode && ip.type == type_file
                  then (itrunc sb ip w.tree.fs >>= λ (ip', fs').
                      ok (put i ip' (record (w.tree) { fs = fs' })))
                  else ok w.tree
              t2 ← iunlock sb pid i t1
              ok (
                record u {
                  world = record w { files = set files k (opened i omode ip f); tree = t2 };
                  ofile = ofile;
                },
                some fd,
              )
          ]
    ]

  pub sys_open : (path : Option (List ℕ)) → (omode : ℕ) → User → Outcome (User × Option ℕ)
  sys_open none omode u = ok (u, none)
  sys_open (some path) omode u = do
    let w : World = call_log begins u.world
    (t1, found) ← open_inode u.cwd omode path w.tree
    let u1 : User = record u { world = with_tree t1 w }
    (u2, fd) ← elim found as (λ o. Outcome (User × Option ℕ)) [
      | none ↦ ok (u1, none)
      | some i ↦ fetch i t1 >>= λ ip.
          if ip.type == type_device && leb device_count ip.major
          then give_up i u1
          else install i omode u1
    ]
    ok (record u2 { world = call_log ends u2.world }, fd)

  -- create, and iunlockput of what it made.
  pub make_node :
      (cwd : ℕ) → (path : Option (List ℕ)) → (type major minor : ℕ) → Tree → Outcome (Tree × Bool)
  make_node cwd none type major minor t = ok (t, false)
  make_node cwd (some path) type major minor t =
      create sb pid cwd path type major minor t >>= λ (t1, made). elim made [
        | none ↦ ok (t1, false)
        | some i ↦ iunlockput sb pid i t1 >>= λ t2. ok (t2, true)
      ]

  pub sys_mkdir : (path : Option (List ℕ)) → User → Outcome (User × Bool)
  sys_mkdir path u = in_transaction (make_node u.cwd path type_dir 0 0) u

  -- `major` and `minor` are cut to a short.
  pub sys_mknod : (path : Option (List ℕ)) → (major minor : ℕ) → User → Outcome (User × Bool)
  sys_mknod path major minor u =
      in_transaction (make_node u.cwd path type_device (major % 65536) (minor % 65536)) u

  -- The new current directory.
  pub change_dir : (cwd : ℕ) → (path : Option (List ℕ)) → Tree → Outcome (Tree × Option ℕ)
  change_dir cwd none t = ok (t, none)
  change_dir cwd (some path) t = namei sb pid cwd path t >>= λ found. elim (found.inode) [
    | none ↦ ok (found.tree, none)
    | some i ↦ do
      t1 ← ilock sb pid i found.tree
      ip ← fetch i t1
      let refuse : Outcome (Tree × Option ℕ) = (iunlockput sb pid i t1 >>= λ t2. ok (t2, none))
      let enter : Outcome (Tree × Option ℕ) = do
        t2 ← iunlock sb pid i t1
        t3 ← iput sb pid cwd t2
        ok (t3, some i)
      if not (ip.type == type_dir) then refuse else enter
  ]

  pub sys_chdir : (path : Option (List ℕ)) → User → Outcome (User × Bool)
  sys_chdir path u = in_transaction (change_dir u.cwd path) u >>= λ (u', found). elim found [
    | none ↦ ok (u', false)
    | some i ↦ ok (record u' { cwd = i }, true)
  ]
