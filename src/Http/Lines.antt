-- ===== src/Http/Lines.antt =====
-- std::getline over std::istringstream: the lines of a text, without their newlines. A text that
-- ends in a newline has no empty line behind it.
use sandrun.Common.{ℕ, List, [], ◌∷◌, ◌++◌, ◌≡◌, ◌≢◌, refl, arith, Bytes, ◌==◌, if◌then◌else◌}
use sandrun.Common.Find.{Lacks}

-- A byte in front of the first line.
abbrev pub prepend : ℕ → List Bytes → List Bytes
prepend c [] = (c ∷ []) ∷ []
prepend c (line ∷ lines) = (c ∷ line) ∷ lines

unfoldable pub split_lines : Bytes → List Bytes
split_lines [] = []
split_lines (c ∷ s) = let rest = split_lines s in if c == b'\n' then [] ∷ rest else prepend c rest

-- Up to its newline a text is one line.
pub split_lines-line :
    (line rest : Bytes)
    → Lacks b'\n' line
    → split_lines (line ++ b'\n' ∷ rest) ≡ line ∷ split_lines rest
unfolding split_lines
split_lines-line [] rest h = ground arith
split_lines-line (c ∷ line) rest h = ground (arith, split_lines-line line rest h.1)

-- The lines with a newline in front of each.
abbrev pub newlined : List Bytes → Bytes
newlined [] = []
newlined (line ∷ lines) = b'\n' ∷ (line ++ newlined lines)

-- The lines with newlines between them.
abbrev pub joined : List Bytes → Bytes
joined [] = []
joined (line ∷ lines) = line ++ newlined lines

abbrev pub EndsPlain : Bytes → Type 0
EndsPlain [] = Unit
EndsPlain (c ∷ []) = c ≢ b'\n'
EndsPlain (c ∷ d ∷ s) = EndsPlain (d ∷ s)

joined-prepend : (c : ℕ) (lines : List Bytes) → joined (prepend c lines) ≡ c ∷ joined lines
joined-prepend c [] = refl
joined-prepend c (line ∷ lines) = refl

prepend-ne-nil : (c : ℕ) (lines : List Bytes) → prepend c lines ≢ []
prepend-ne-nil c [] h = cc
prepend-ne-nil c (line ∷ lines) h = cc

split_lines-ne-nil : (c : ℕ) (s : Bytes) → split_lines (c ∷ s) ≢ []
unfolding split_lines
split_lines-ne-nil c s h = ground (arith, prepend-ne-nil c (split_lines s))

joined-nil : (lines : List Bytes) → lines ≢ [] → joined ([] ∷ lines) ≡ b'\n' ∷ joined lines
joined-nil [] h = absurd (h refl)
joined-nil (line ∷ lines) h = refl

-- A text that does not end in a newline is its lines joined.
pub joined-split_lines : (s : Bytes) → EndsPlain s → joined (split_lines s) ≡ s
unfolding split_lines
joined-split_lines [] h = refl
joined-split_lines (c ∷ []) h = ground arith
joined-split_lines (c ∷ d ∷ s) h = ground (
  arith,
  joined-split_lines (d ∷ s) h,
  joined-prepend c (split_lines (d ∷ s)),
  joined-nil (split_lines (d ∷ s)) (split_lines-ne-nil d s),
)

-- A newline at the end is not seen.
pub split_lines-newline :
    (c : ℕ) (s : Bytes)
    → EndsPlain (c ∷ s)
    → split_lines ((c ∷ s) ++ b'\n' ∷ []) ≡ split_lines (c ∷ s)
unfolding split_lines
split_lines-newline c [] h = ground arith
split_lines-newline c (d ∷ s) h = ground (arith, split_lines-newline d s h)
