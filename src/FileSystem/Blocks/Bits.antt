-- ===== src/FileSystem/Blocks/Bits.antt =====
-- One bit of a byte, and one bit of a block of the bitmap.
use csse332_project.Base.{
  ℕ, zero, suc, ◌+◌, ◌*◌, ◌/◌, ◌%◌, ◌≡◌, true, false, ◌==◌, if◌then◌else◌, arith,
}
use csse332_project.FileSystem.{Block}
use csse332_project.FileSystem.Blocks.{test_bit, set_bit, clear_bit, mark, unmark, is_marked}

half_of_set : (x y : ℕ) → (x % 2 + 2 * y) / 2 ≡ y
half_of_set x y = omega arith

test_bit-set_bit : (x k j : ℕ) → test_bit (set_bit x k) j ≡ (if k == j then true else test_bit x j)
unfolding test_bit set_bit
test_bit-set_bit x zero zero = ground arith
test_bit-set_bit x zero (suc j) =
    let e : (x / 2 * 2 + 1) / 2 ≡ x / 2 = omega arith in rw e (ground arith)
test_bit-set_bit x (suc k) zero = ground arith
test_bit-set_bit x (suc k) (suc j) =
    rw (half_of_set x (set_bit (x / 2) k)) (ground (arith, test_bit-set_bit (x / 2) k j))

test_bit-clear_bit :
    (x k j : ℕ) → test_bit (clear_bit x k) j ≡ (if k == j then false else test_bit x j)
unfolding test_bit clear_bit
test_bit-clear_bit x zero zero = ground arith
test_bit-clear_bit x zero (suc j) =
    let e : (x / 2 * 2) / 2 ≡ x / 2 = omega arith in rw e (ground arith)
test_bit-clear_bit x (suc k) zero = ground arith
test_bit-clear_bit x (suc k) (suc j) =
    rw (half_of_set x (clear_bit (x / 2) k)) (ground (arith, test_bit-clear_bit (x / 2) k j))

pub is_marked-mark :
    (bytes : Block) (bi c : ℕ)
    → is_marked (mark bytes bi) c ≡ (if bi == c then true else is_marked bytes c)
is_marked-mark bytes bi c = ground (arith, test_bit-set_bit (bytes (bi / 8)) (bi % 8) (c % 8))

pub is_marked-unmark :
    (bytes : Block) (bi c : ℕ)
    → is_marked (unmark bytes bi) c ≡ (if bi == c then false else is_marked bytes c)
is_marked-unmark bytes bi c = ground (arith, test_bit-clear_bit (bytes (bi / 8)) (bi % 8) (c % 8))
