-- ===== src/SysFile.antt =====
-- kernel/sysfile.c: the system calls on files. The arguments are what argint, argaddr and argstr have
-- fetched: a path is none where argstr fails. false and none stand for -1.
pub mod Descriptors
pub mod Names
pub mod Opening
use csse332_project.Base.{
  ℕ, ◌+◌, ◌-◌, ◌^◌, ◌%◌, Bool, ◌||◌, ◌==◌, leb, List, Option, Outcome, ok, ◌>>=◌,
}
use csse332_project.FileSystem.{Superblock, Inode}
use csse332_project.FileSystem.Inodes.{iupdate}
use csse332_project.FileSystem.Table.{Tree, fetch, put}
use csse332_project.Files.Access.{World}

-- What a process adds: `ofile` and `cwd`.
pub record User : Type 0 where
  pub world : World
  pub ofile : List (Option ℕ)
  pub cwd : ℕ

abbrev pub with_tree : Tree → World → World
with_tree t w = record w { tree = t }

-- A change of fields of a locked inode, and iupdate.
pub update_inode : Superblock → ℕ → (Inode → Inode) → Tree → Outcome Tree
update_inode sb i change t = fetch i t >>= λ ip.
    let t' = put i (change ip) t in ok (record t' { fs = iupdate sb (change ip) t'.fs })

-- `nlink++` and `nlink--` of a short, and `nlink < 1`.
abbrev pub link_more : Inode → Inode
link_more ip = record ip { nlink = (ip.nlink + 1) % 2 ^ 16 }

abbrev pub link_less : Inode → Inode
link_less ip = record ip { nlink = (ip.nlink + (2 ^ 16 - 1)) % 2 ^ 16 }

abbrev pub has_no_link : Inode → Bool
has_no_link ip = ip.nlink == 0 || leb (2 ^ 15) ip.nlink
