-- ===== src/FileSystem/Table.antt =====
-- kernel/fs.c: the table of inodes in memory; ialloc, iget, idup, ilock, iunlock and iput. A pointer to
-- an inode is its index. Each function runs with no other process in between; where it would sleep on
-- the lock of an inode, it is `spin`.
pub mod Unique
use csse332_project.Base.{
  ℕ, zero, suc, ◌+◌, ◌-◌, ◌^◌, Bool, true, false, not, ◌&&◌, ◌||◌, Option, none, some, List, [],
  ◌∷◌, ◌==◌, ltb, leb, if◌then◌else◌, get_elem?, set, u32, sub32, Outcome, ok, panic, spin, fault,
  ◌>>=◌,
}
use csse332_project.Locks.{initsleeplock, acquiresleep, releasesleep, holdingsleep}
use csse332_project.FileSystem.{Superblock, Fs, Inode}
use csse332_project.FileSystem.Inodes.{iupdate, read_inode, ialloc_scan}
use csse332_project.FileSystem.Content.{itrunc}

-- `itable.inode` and the file system.
pub record Tree : Type 0 where
  pub inodes : List Inode
  pub fs : Fs

abbrev pub fetch : ℕ → Tree → Outcome Inode
fetch i t = elim (get_elem? t.inodes i) [ some ip ↦ ok ip | none ↦ fault ]

abbrev pub put : ℕ → Inode → Tree → Tree
put i ip t = record t { inodes = set t.inodes i ip }

-- `ip->ref > 0`, for an `int`
abbrev pub is_held : Inode → Bool
is_held ip = ltb 0 ip.ref && ltb ip.ref (2 ^ 31)

-- The loop of iinit; the lock of the table is not part of the model.
pub iinit : List Inode → List Inode
iinit [] = []
iinit (ip ∷ ips) = let rest = iinit ips in record ip { lock = initsleeplock } ∷ rest

-- How the loop of iget ends: at an entry of the inode, with a free entry, or with none.
pub data Slot : Type 0 where
  cached : ℕ → Slot
  empty : ℕ → Slot
  full : Slot

abbrev pub is_for : (dev inum : ℕ) → Inode → Bool
is_for dev inum ip = is_held ip && (ip.dev == dev && ip.inum == inum)

abbrev slot_of : Option ℕ → Slot
slot_of none = full
slot_of (some e) = empty e

-- `first` is the free entry that is remembered.
abbrev remember : Option ℕ → ℕ → Inode → Option ℕ
remember none i ip = if ip.ref == 0 then some i else none
remember (some e) i ip = some e

-- The loop from entry `i` on.
pub iget_scan : (dev inum i : ℕ) → Option ℕ → List Inode → Slot
iget_scan dev inum i first [] = slot_of first
iget_scan dev inum i first (ip ∷ ips) =
    let rest = iget_scan dev inum (i + 1) (remember first i ip) ips in
    if is_for dev inum ip then cached i else rest

abbrev pub add_ref : Inode → Inode
add_ref ip = record ip { ref = u32 (ip.ref + 1) }

abbrev pub recycled : (dev inum : ℕ) → Inode → Inode
recycled dev inum ip = record ip { dev = dev; inum = inum; ref = 1; valid = false }

-- A change of entry `i`.
pub modify : ℕ → (Inode → Inode) → List Inode → List Inode
modify i f [] = []
modify zero f (ip ∷ ips) = f ip ∷ ips
modify (suc i) f (ip ∷ ips) = ip ∷ modify i f ips

pub iget : (dev inum : ℕ) → List Inode → Outcome (List Inode × ℕ)
iget dev inum ips = elim (iget_scan dev inum 0 none ips) [
  | cached i ↦ ok (modify i add_ref ips, i)
  | empty i ↦ ok (modify i (recycled dev inum) ips, i)
  | full ↦ panic "iget: no inodes"
]

pub idup : ℕ → List Inode → List Inode
idup i ips = modify i add_ref ips

module _ (sb : Superblock) where
  -- `none` where ialloc reports 0; `dev` is the device of the file system.
  pub ialloc : (dev type : ℕ) → Tree → Outcome (Tree × Option ℕ)
  ialloc dev type t =
      let (fs, found) = ialloc_scan sb type (sb.ninodes - 1) 1 t.fs in
      elim found [
        | none ↦ ok (record t { fs = fs }, none)
        | some inum ↦
            iget dev inum t.inodes >>= λ (ips, i). ok (record { inodes = ips; fs = fs }, some i)
      ]

  pub ilock : (pid i : ℕ) → Tree → Outcome Tree
  ilock pid i t = fetch i t >>= λ ip.
      let locked : Outcome Inode = elim (acquiresleep pid ip.lock) [
        | none ↦ spin
        | some lk ↦ ok (record ip { lock = lk })
      ] in
      let loaded : Outcome Tree =
        (locked >>= λ q.
        let r = read_inode sb t.fs q in
        if q.valid
        then ok (put i q t)
        else if r.type == 0
        then panic "ilock: no type"
        else ok (put i r t)) in
      if not (is_held ip) then panic "ilock" else loaded

  pub iunlock : (pid i : ℕ) → Tree → Outcome Tree
  iunlock pid i t = fetch i t >>= λ ip.
      if not (holdingsleep pid ip.lock) || not (is_held ip)
      then panic "iunlock"
      else ok (put i (record ip { lock = releasesleep ip.lock }) t)

  -- The branch of iput that frees the inode on disk.
  pub free_inode : (pid : ℕ) → Inode → Fs → Outcome (Inode × Fs)
  free_inode pid ip fs = elim (acquiresleep pid ip.lock) [
    | none ↦ spin
    | some lk ↦ itrunc sb (record ip { lock = lk }) fs >>= λ (ip1, fs1).
        let ip2 = record ip1 { type = 0 } in
        ok (record ip2 { valid = false; lock = releasesleep ip2.lock }, iupdate sb ip2 fs1)
  ]

  pub iput : (pid i : ℕ) → Tree → Outcome Tree
  iput pid i t = do
    ip ← fetch i t
    (ip', fs') ←
        if ip.ref == 1 && (ip.valid && ip.nlink == 0) then free_inode pid ip t.fs else ok (ip, t.fs)
    ok (record { inodes = set t.inodes i (record ip' { ref = sub32 ip'.ref 1 }); fs = fs' })

  pub iunlockput : (pid i : ℕ) → Tree → Outcome Tree
  iunlockput pid i t = iunlock pid i t >>= iput pid i
