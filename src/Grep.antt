-- ===== src/Grep.antt =====
-- user/grep.c, the pattern matcher. A pattern and a text are the lists of their bytes before the
-- NUL; a read of the NUL is the end of the list.
pub mod Meaning
mod Tests
use csse332_project.Base.{ℕ, Bool, true, false, ◌&&◌, ◌||◌, List, [], ◌∷◌, ◌==◌, if◌then◌else◌}

-- `re[0]=='.' || re[0]==*text` for a character of the text
abbrev pub accepts : (c t : ℕ) → Bool
accepts c t = (c == b'.') || (c == t)

abbrev pub is_end : List ℕ → Bool
is_end [] = true
is_end (t ∷ text) = false

-- `here` is matchhere with the rest of the pattern.
pub matchstar : (c : ℕ) (here : List ℕ → Bool) → List ℕ → Bool
matchstar c here [] = here []
matchstar c here (t ∷ text) =
    let rest = matchstar c here text in
    if here (t ∷ text) then true else if (t == c) || (c == b'.') then rest else false

-- The last two tests of matchhere; `here` is matchhere with the rest of the pattern.
abbrev pub match_one : (c : ℕ) (here : List ℕ → Bool) → List ℕ → Bool
match_one c here [] = false
match_one c here (t ∷ text) = if accepts c t then here text else false

pub matchhere : List ℕ → List ℕ → Bool
matchhere [] text = true
matchhere (c ∷ []) text = if c == b'$' then is_end text else match_one c (matchhere []) text
matchhere (c ∷ d ∷ re) text =
    let star = matchstar c (matchhere re) text in
    let one = match_one c (matchhere (d ∷ re)) text in if d == b'*' then star else one

-- The loop of `match`.
pub match_any : (re text : List ℕ) → Bool
match_any re [] = matchhere re []
match_any re (t ∷ text) =
    let rest = match_any re text in if matchhere re (t ∷ text) then true else rest

pub match_line : (re text : List ℕ) → Bool
match_line [] text = match_any [] text
match_line (c ∷ re) text = if c == b'^' then matchhere re text else match_any (c ∷ re) text
