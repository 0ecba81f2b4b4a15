-- ===== src/SysFile/Names.antt =====
-- kernel/sysfile.c: names; sys_link, isdirempty, sys_unlink and create. Each runs inside of
-- begin_op and end_op, on the tree of inodes.
use csse332_project.Base.{
  ℕ, zero, suc, ◌+◌, ◌*◌, Bool, true, false, ◌&&◌, ◌||◌, Option, none, some, List, [], ◌∷◌, ◌==◌,
  ltb, if◌then◌else◌, Outcome, ok, panic, spin, ◌>>=◌,
}
use csse332_project.FileSystem.{Superblock, Fs, Inode}
use csse332_project.FileSystem.Content.{writei}
use csse332_project.FileSystem.Table.{Tree, fetch, put, ialloc, ilock, iunlock, iput, iunlockput}
use csse332_project.FileSystem.Directory.{
  copy_from, namecmp, entry_inum, entry_size, read_entry, dirlookup, dirlink, type_dir,
}
use csse332_project.FileSystem.Paths.{name_bytes, namei, nameiparent}
use csse332_project.Files.Access.{begins, ends, call_log}
use csse332_project.SysFile.{User, with_tree, update_inode, link_more, link_less, has_no_link}

-- `T_FILE` and `T_DEVICE`
abbrev pub type_file : ℕ
type_file = 2

abbrev pub type_device : ℕ
type_device = 3

abbrev pub dot : List ℕ
dot = b'.' ∷ []

abbrev pub dot_dot : List ℕ
dot_dot = b'.' ∷ b'.' ∷ []

-- A call between begin_op and end_op.
abbrev pub in_transaction : {A : Type 0} → (Tree → Outcome (Tree × A)) → User → Outcome (User × A)
in_transaction body u = body u.world.tree >>= λ (t, r).
    ok (record u { world = call_log ends (with_tree t (call_log begins u.world)) }, r)

module _ (sb : Superblock) (pid cwd : ℕ) where
  -- From `bad` of sys_link on.
  pub unlink_back : (i : ℕ) → Tree → Outcome (Tree × Bool)
  unlink_back i t = do
    t1 ← ilock sb pid i t
    t2 ← update_inode sb i link_less t1
    t3 ← iunlockput sb pid i t2
    ok (t3, false)

  -- The entry `name` for the inode `i` in the directory `d`.
  pub link_into : (d i : ℕ) → (name : List ℕ) → Tree → Outcome (Tree × Bool)
  link_into d i name t = do
    t1 ← ilock sb pid d t
    dp ← fetch d t1
    ip ← fetch i t1
    (t2, linked) ←
        if dp.dev == ip.dev then dirlink sb pid d (name_bytes name) ip.inum t1 else ok (t1, false)
    t3 ← iunlockput sb pid d t2
    let done : Outcome (Tree × Bool) = (iput sb pid i t3 >>= λ t4. ok (t4, true))
    if linked then done else unlink_back i t3

  pub link_paths : (old new : List ℕ) → Tree → Outcome (Tree × Bool)
  link_paths old new t = namei sb pid cwd old t >>= λ found. elim (found.inode) [
    | none ↦ ok (found.tree, false)
    | some i ↦ do
      t1 ← ilock sb pid i found.tree
      ip ← fetch i t1
      let refuse : Outcome (Tree × Bool) = (iunlockput sb pid i t1 >>= λ t2. ok (t2, false))
      let counted : Outcome Tree = (update_inode sb i link_more t1 >>= iunlock sb pid i)
      let linked : Outcome (Tree × Bool) =
          (counted >>= λ t2. nameiparent sb pid cwd new t2 >>= λ parent. elim (parent.inode) [
            | none ↦ unlink_back i parent.tree
            | some d ↦ link_into d i parent.name parent.tree
          ])
      if ip.type == type_dir then refuse else linked
  ]

  -- The loop of isdirempty, on fuel.
  pub empty_loop : (fuel off : ℕ) → Inode → Fs → Outcome (Inode × Fs × Bool)
  empty_loop zero off dp fs = spin
  empty_loop (suc fuel) off dp fs =
      let round : Outcome (Inode × Fs × Bool) =
        (read_entry sb "isdirempty: readi" off dp fs >>= λ (de, dp', fs').
        let rest = empty_loop fuel (off + entry_size) dp' fs' in
        if entry_inum de == 0 then rest else ok (dp', fs', false)) in
      if ltb off dp.size then round else ok (dp, fs, true)

  pub isdirempty : (i : ℕ) → Tree → Outcome (Tree × Bool)
  isdirempty i t = do
    dp ← fetch i t
    (dp', fs', empty) ← empty_loop (suc dp.size) (2 * entry_size) dp t.fs
    ok (put i dp' (record t { fs = fs' }), empty)

  -- From the write of the empty entry at `off` on, with both inodes locked.
  pub remove_entry : (d i off : ℕ) → Tree → Outcome (Tree × Bool)
  remove_entry d i off t = do
    dp ← fetch d t
    w ← writei sb (copy_from (λ a. 0)) 0 off entry_size dp t.fs
    let t1 : Tree = put d w.inode (record t { fs = w.fs })
    let whole : Bool = elim (w.result) [ none ↦ false | some n ↦ n == entry_size ]
    ip ← if whole then fetch i t1 else panic "unlink: writei"
    t2 ← if ip.type == type_dir then update_inode sb d link_less t1 else ok t1
    t3 ← iunlockput sb pid d t2
    t4 ← update_inode sb i link_less t3
    t5 ← iunlockput sb pid i t4
    ok (t5, true)

  pub unlink_path : List ℕ → Tree → Outcome (Tree × Bool)
  unlink_path path t = nameiparent sb pid cwd path t >>= λ parent. elim (parent.inode) [
    | none ↦ ok (parent.tree, false)
    | some d ↦ do
      t1 ← ilock sb pid d parent.tree
      let name : ℕ → ℕ = name_bytes parent.name
      let bad : Tree → Outcome (Tree × Bool) =
          λ t'. iunlockput sb pid d t' >>= λ t''. ok (t'', false)
      let go : Outcome (Tree × Bool) =
          (dirlookup sb d name t1 >>= λ (t2, found). elim found [
            | none ↦ bad t2
            | some (i, off) ↦ do
              t3 ← ilock sb pid i t2
              ip ← fetch i t3
              (t4, empty) ←
                  if has_no_link ip
                  then panic "unlink: nlink < 1"
                  else if ip.type == type_dir
                  then isdirempty i t3
                  else ok (t3, true)
              let removed : Outcome (Tree × Bool) = remove_entry d i off t4
              let kept : Outcome (Tree × Bool) = (iunlockput sb pid i t4 >>= bad)
              if empty then removed else kept
          ])
      if namecmp name (name_bytes dot) == 0 || namecmp name (name_bytes dot_dot) == 0
          then bad t1
          else go
  ]

  -- From `fail` of create on.
  pub undo_create : (d i : ℕ) → Tree → Outcome (Tree × Option ℕ)
  undo_create d i t = do
    t1 ← update_inode sb i (λ ip. record ip { nlink = 0 }) t
    t2 ← iunlockput sb pid i t1
    t3 ← iunlockput sb pid d t2
    ok (t3, none)

  -- create from the new inode `i` on.
  pub fill_new : (d i type major minor : ℕ) → (name : List ℕ) → Tree → Outcome (Tree × Option ℕ)
  fill_new d i type major minor name t = do
    t1 ← ilock sb pid i t
    t2 ← update_inode sb i (λ ip. record ip { major = major; minor = minor; nlink = 1 }) t1
    ip ← fetch i t2
    dp ← fetch d t2
    (t3, self) ←
        if type == type_dir then dirlink sb pid i (name_bytes dot) ip.inum t2 else ok (t2, true)
    (t4, both) ←
        if type == type_dir && self
        then dirlink sb pid i (name_bytes dot_dot) dp.inum t3
        else ok (t3, self)
    (t5, linked) ← if both then dirlink sb pid d (name_bytes name) ip.inum t4 else ok (t4, false)
    let done : Outcome (Tree × Option ℕ) = do
      t6 ← if type == type_dir then update_inode sb d link_more t5 else ok t5
      t7 ← iunlockput sb pid d t6
      ok (t7, some i)
    if linked then done else undo_create d i t5

  -- The inode that create returns locked.
  pub create : List ℕ → (type major minor : ℕ) → Tree → Outcome (Tree × Option ℕ)
  create path type major minor t = nameiparent sb pid cwd path t >>= λ parent. elim (parent.inode) [
    | none ↦ ok (parent.tree, none)
    | some d ↦ do
      t1 ← ilock sb pid d parent.tree
      (t2, found) ← dirlookup sb d (name_bytes parent.name) t1
      elim found as (λ o. Outcome (Tree × Option ℕ)) [
        | some (i, off) ↦ do
          t3 ← iunlockput sb pid d t2
          t4 ← ilock sb pid i t3
          ip ← fetch i t4
          let other : Outcome (Tree × Option ℕ) = (iunlockput sb pid i t4 >>= λ t5. ok (t5, none))
          if type == type_file && (ip.type == type_file || ip.type == type_device)
              then ok (t4, some i)
              else other
        | none ↦ do
          dp ← fetch d t2
          (t3, made) ← ialloc sb dp.dev type t2
          elim made as (λ o. Outcome (Tree × Option ℕ)) [
            | none ↦ iunlockput sb pid d t3 >>= λ t4. ok (t4, none)
            | some i ↦ fill_new d i type major minor parent.name t3
          ]
      ]
  ]

module _ (sb : Superblock) (pid : ℕ) where
  pub sys_link : (old new : Option (List ℕ)) → User → Outcome (User × Bool)
  sys_link none new u = ok (u, false)
  sys_link (some old) none u = ok (u, false)
  sys_link (some old) (some new) u = in_transaction (link_paths sb pid u.cwd old new) u

  pub sys_unlink : (path : Option (List ℕ)) → User → Outcome (User × Bool)
  sys_unlink none u = ok (u, false)
  sys_unlink (some path) u = in_transaction (unlink_path sb pid u.cwd path) u
