-- ===== src/Grep/Tests.antt =====
-- The matcher at concrete patterns.
use csse332_project.Base.{ℕ, ◌≡◌, ◌↔◌, ◌⊎◌, refl, true, false, List, [], ◌∷◌, ◌++◌}
use csse332_project.Grep.{matchhere, match_any, match_line, matchstar}
use csse332_project.Grep.Meaning.{parse, Denotes, match_line-Denotes}

-- "xb*$"
abbrev pattern_end : List ℕ
pattern_end = b'b' ∷ b'*' ∷ b'$' ∷ []

-- "axbb"
abbrev line : List ℕ
line = b'a' ∷ b'x' ∷ b'b' ∷ b'b' ∷ []

abbrev letter_x : ℕ
letter_x = b'x'

line_runs :
    (match_line (b'x' ∷ pattern_end) line ≡ true)
    × (match_line (b'^' ∷ b'x' ∷ pattern_end) line ≡ false)
unfolding match_line match_any matchhere matchstar
line_runs = (refl, refl)

match_line-Denotes_example :
    ((match_line (b'^' ∷ pattern_end) line ≡ true) ↔ Denotes (parse pattern_end) line)
    × ((letter_x ≡ b'^')
        ⊎ ((match_line (b'x' ∷ pattern_end) line ≡ true) ↔ (
            (u : List ℕ) × (v : List ℕ) × (line ≡ u ++ v)
            × Denotes (parse (b'x' ∷ pattern_end)) v)))
    × (match_line [] line ≡ true)
match_line-Denotes_example = match_line-Denotes b'x' pattern_end line
