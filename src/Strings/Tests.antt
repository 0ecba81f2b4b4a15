-- ===== src/Strings/Tests.antt =====
-- Concrete runs of the string functions, and the theorems at concrete memories.
use csse332_project.Base.{ℕ, ◌+◌, ◌<◌, ◌≡◌, refl, inr, some, arith, update, if◌then◌else◌, ltb}
use csse332_project.Strings.{Memory, memmove, user_memmove, safestrcpy, strlen, strncmp, atoi}
use csse332_project.Strings.Moves.{memmove-within}
use csse332_project.Strings.Copies.{safestrcpy_bounds}

-- Each byte is its address, up to the NUL at 110.
abbrev text : Memory
text a = if ltb a 110 then a else 0

-- Two bytes up, over itself.
memmove-within_example :
    (memmove 102 100 4 text 105 ≡ 103) × (user_memmove 102 100 4 text 105 ≡ 103)
memmove-within_example = memmove-within 102 100 4 text 105

safestrcpy_bounds_example :
    (safestrcpy 200 100 4 text 204 ≡ 0)
    × ((j : ℕ) × (j < 4) × (safestrcpy 200 100 4 text (200 + j) ≡ 0))
safestrcpy_bounds_example = safestrcpy_bounds 200 100 4 text 204 (omega arith) (inr (omega arith))

strlen_runs : strlen 6 105 0 text ≡ some 5
unfolding strlen
strlen_runs = refl

-- "42;"
abbrev digits : Memory
digits = update (update (update (λ a. 0) 0 b'4') 1 b'2') 2 b';'

atoi_runs : atoi 5 0 0 digits ≡ some 42
unfolding atoi
atoi_runs = refl

compare_runs : strncmp 100 100 20 text ≡ 0
unfolding strncmp
compare_runs = refl
