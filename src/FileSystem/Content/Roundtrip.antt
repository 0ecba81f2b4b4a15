-- ===== src/FileSystem/Content/Roundtrip.antt =====
-- kernel/fs.c: a writei followed by a readi at the same place.
use csse332_project.Base.{ℕ, ◌+◌, ◌-◌, ltb, if◌then◌else◌}

-- The number of bytes that there are to read.
abbrev pub available : (off n size : ℕ) → ℕ
available off n size = if ltb size (off + n) then size - off else n
