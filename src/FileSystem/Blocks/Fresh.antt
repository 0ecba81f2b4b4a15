-- ===== src/FileSystem/Blocks/Fresh.antt =====
-- The blocks that are in use, and one that balloc hands out.
use csse332_project.Base.{
  ℕ, ◌≤◌, ◌<◌, ◌≡◌, ◌≢◌, refl, sym, ap, ◌∙◌, ◌⊎◌, inl, inr, true, false, ◌==◌, if◌then◌else◌, arith,
  ne→==, ==_self,
}
use csse332_project.FileSystem.{Block, Superblock, Fs, log_block}
use csse332_project.FileSystem.Blocks.{balloc, is_used, bitmap_block}
use csse332_project.FileSystem.Blocks.Alloc.{IsLaidOut, balloc-Allocates, data_start}

module _ (sb : Superblock) where
  -- A block that a file may have: behind the bitmap and used.
  pub record IsOwned (fs : Fs) (a : ℕ) : Type 0 where
    pub behind : data_start sb ≤ a
    pub inside : a < sb.size
    pub used : is_used sb fs a ≡ true

  -- A block that balloc has handed out.
  pub record IsFresh (fs fs' : Fs) (r : ℕ) : Type 0 where
    pub laid : IsLaidOut sb fs'
    pub free : is_used sb fs r ≡ false
    pub owned : IsOwned fs' r
    pub zeros : fs'.disk r ≡ (λ i. 0)
    pub keeps : (c : ℕ) → IsOwned fs c → IsOwned fs' c × (fs'.disk c ≡ fs.disk c)

  balloc_at :
      (fs : Fs) (c : ℕ)
      → IsLaidOut sb fs
      → c < sb.size
      → (balloc sb fs).1 ≢ 0
      → (data_start sb ≤ (balloc sb fs).1)
        × ((balloc sb fs).1 < sb.size)
        × (is_used sb fs (balloc sb fs).1 ≡ false)
        × (is_used sb ((balloc sb fs).0) c
            ≡ (if (balloc sb fs).1 == c then true else is_used sb fs c))
        × (((balloc sb fs).0).disk (balloc sb fs).1 ≡ (λ i. 0))
        × ((c ≡ (balloc sb fs).1)
            ⊎ (c ≡ bitmap_block sb (balloc sb fs).1)
            ⊎ (((balloc sb fs).0).disk c ≡ fs.disk c))
  balloc_at fs c laid lt nz = elim (balloc-Allocates sb fs c laid lt) [
    | inl (e, all) ↦ absurd (nz (ap (λ o. o.1) e))
    | inr (lo, hi, free, below, used, zeros, away) ↦ (lo, hi, free, used, zeros, away)
  ]

  fresh_owned :
      (fs : Fs) (c : ℕ)
      → IsLaidOut sb fs
      → (balloc sb fs).1 ≢ 0
      → IsOwned fs c
      → IsOwned ((balloc sb fs).0) c × (((balloc sb fs).0).disk c ≡ fs.disk c)
  fresh_owned fs c laid nz own = go (balloc_at fs c laid own.inside nz)
    where
      r : ℕ
      r = (balloc sb fs).1

      go :
          (data_start sb ≤ r)
            × (r < sb.size)
            × (is_used sb fs r ≡ false)
            × (is_used sb ((balloc sb fs).0) c ≡ (if r == c then true else is_used sb fs c))
            × (((balloc sb fs).0).disk r ≡ (λ i. 0))
            × ((c ≡ r) ⊎ (c ≡ bitmap_block sb r) ⊎ (((balloc sb fs).0).disk c ≡ fs.disk c))
          → IsOwned ((balloc sb fs).0) c × (((balloc sb fs).0).disk c ≡ fs.disk c)
      go (lo, hi, free, used, zeros, away) =
          let ne : r ≢ c = λ e.
            (let clash : is_used sb fs r ≡ true = ap (is_used sb fs) e ∙ own.used in
              let bad : true ≡ false = sym clash ∙ free in cc) in
          (
            record {
              behind = own.behind;
              inside = own.inside;
              used = used ∙ (rw (ne→== r c ne) own.used);
            },
            elim away [
              | inl here ↦ absurd (ne (sym here))
              | inr (inl bits) ↦ absurd (omega (arith, own.behind))
              | inr (inr same) ↦ same
            ],
          )

  pub balloc-IsFresh :
      (fs : Fs)
      → IsLaidOut sb fs
      → (balloc sb fs).1 ≢ 0
      → IsFresh fs ((balloc sb fs).0) (balloc sb fs).1
  balloc-IsFresh fs laid nz = record {
    laid = record {
      reserved = record {
        used = λ c lo hi.
            let a : is_used sb ((balloc sb fs).0) c ≡ (if r == c then true else is_used sb fs c) =
              (balloc_at fs c laid (omega (arith, at.0, at.1)) nz).3 in
            a ∙ (rw (ne→== r c (omega (arith, at.0))) (laid.reserved.used c lo hi));
      };
      nonempty = laid.nonempty;
      fits = laid.fits;
    };
    free = at.2;
    owned = record {
      behind = at.0;
      inside = at.1;
      used = (balloc_at fs r laid at.1 nz).3 ∙ (rw (==_self r) refl);
    };
    zeros = at.4;
    keeps = λ c own. fresh_owned fs c laid nz own;
  }
    where
      r : ℕ
      r = (balloc sb fs).1

      at :
          (data_start sb ≤ r)
          × (r < sb.size)
          × (is_used sb fs r ≡ false)
          × (is_used sb ((balloc sb fs).0) 0 ≡ (if r == 0 then true else is_used sb fs 0))
          × (((balloc sb fs).0).disk r ≡ (λ i. 0))
          × ((0 ≡ r) ⊎ (0 ≡ bitmap_block sb r) ⊎ (((balloc sb fs).0).disk 0 ≡ fs.disk 0))
      at = balloc_at fs 0 laid laid.nonempty nz

  -- A write behind the bitmap.
  log_used :
      (fs : Fs) (b c : ℕ) (bytes : Block)
      → data_start sb ≤ b
      → c < sb.size
      → is_used sb (log_block b bytes fs) c ≡ is_used sb fs c
  log_used fs b c bytes lo hi = rw (ne→== b (bitmap_block sb c) (omega arith)) refl

  pub log-IsOwned :
      (fs : Fs) (b c : ℕ) (bytes : Block)
      → data_start sb ≤ b
      → IsOwned fs c
      → IsOwned (log_block b bytes fs) c
  log-IsOwned fs b c bytes lo own = record {
    behind = own.behind;
    inside = own.inside;
    used = log_used fs b c bytes lo own.inside ∙ own.used;
  }

  pub log-IsLaidOut :
      (fs : Fs) (b : ℕ) (bytes : Block)
      → data_start sb ≤ b
      → b < sb.size
      → IsLaidOut sb fs
      → IsLaidOut sb (log_block b bytes fs)
  log-IsLaidOut fs b bytes lo hi laid = record {
    reserved = record {
      used = λ c p q. log_used fs b c bytes lo (omega arith) ∙ laid.reserved.used c p q;
    };
    nonempty = laid.nonempty;
    fits = laid.fits;
  }
