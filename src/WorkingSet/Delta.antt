-- ===== src/WorkingSet/Delta.antt =====
-- The line hunks of crates/tokenzero-recovery/src/working_set.rs: `split_exact_lines`,
-- `delta_between`, `integrate_delta` and `WorkingSetDelta::acknowledgement`.
pub mod Common
pub mod RoundTrip
mod Tests
use mathlib.Core.List.{reverse, flatten}
use tokenzero.Base.Decimal.{show}
use tokenzero.Base.{
  ℕ, suc, ◌+◌, ◌-◌, ◌≡◌, refl, Bool, true, false, not, ◌&&◌, ◌||◌, Option, none, some, List, [],
  ◌∷◌, ◌++◌, Text, codes, text_eq, ltb, ◌==◌, if◌then◌else◌, length, take, drop, checked_add,
}

abbrev pub newline : ℕ
newline = 10

-- Puts a byte in front of the first line.
abbrev pub prepend : ℕ → List Text → List Text
prepend c [] = (c ∷ []) ∷ []
prepend c (l ∷ ls) = (c ∷ l) ∷ ls

-- `split_inclusive('\n')`: each line keeps its terminator, and an empty text has no line.
unfoldable pub split_exact_lines : Text → List Text
split_exact_lines [] = []
split_exact_lines (c ∷ s) =
    let rest = split_exact_lines s in if c == newline then (c ∷ []) ∷ rest else prepend c rest

pub record WorkingSetDelta : Type 0 where
  pub start_line : ℕ
  pub removed : List Text
  pub inserted : List Text

-- The count of leading lines that two lists share: `zip`, `take_while`, `count`.
unfoldable pub common : List Text → List Text → ℕ
common (x ∷ xs) (y ∷ ys) = let rest = common xs ys in if text_eq x y then suc rest else 0
common _ _ = 0

-- `lines[from..to]`
abbrev pub slice : ℕ → ℕ → List Text → List Text
slice from to l = take (to - from) (drop from l)

unfoldable pub hunk : List Text → List Text → WorkingSetDelta
hunk old_lines new_lines =
    let prefix = common old_lines new_lines in
    let suffix = common (reverse (drop prefix old_lines)) (reverse (drop prefix new_lines)) in
    record {
      start_line = prefix + 1;
      removed = slice prefix (length old_lines - suffix) old_lines;
      inserted = slice prefix (length new_lines - suffix) new_lines;
    }

unfoldable pub delta_between : Text → Text → WorkingSetDelta
unfolding hunk
delta_between old new = hunk (split_exact_lines old) (split_exact_lines new)

unfoldable pub lines_eq : List Text → List Text → Bool
lines_eq [] [] = true
lines_eq (x ∷ xs) (y ∷ ys) = text_eq x y && lines_eq xs ys
lines_eq _ _ = false

-- The body behind the two checked additions: `start` and `end` are 0-based.
unfoldable pub splice : List Text → ℕ → ℕ → WorkingSetDelta → Option Text
splice lines start end delta =
    if ltb (length lines) end || not (lines_eq (slice start end lines) delta.removed)
    then none
    else some (flatten (take start lines ++ (delta.inserted ++ drop end lines)))

unfoldable pub integrate_delta : Text → WorkingSetDelta → Option Text
unfolding splice
integrate_delta base delta =
    if delta.start_line == 0
    then none
    else elim (checked_add (delta.start_line - 1) (length delta.removed)) [
      | none ↦ none
      | some end ↦ splice (split_exact_lines base) (delta.start_line - 1) end delta
    ]

abbrev ends_with_newline : Text → Bool
ends_with_newline [] = false
ends_with_newline (c ∷ []) = c == newline
ends_with_newline (c ∷ d ∷ s) = ends_with_newline (d ∷ s)

-- One marked line of the acknowledgement, closed by a newline where it has none.
marked_line : ℕ → Text → Text
marked_line mark line = mark ∷ (line ++ (if ends_with_newline line then [] else newline ∷ []))

marked : ℕ → List Text → Text
unfolding marked_line
marked mark [] = []
marked mark (l ∷ ls) = marked_line mark l ++ marked mark ls

unfoldable pub acknowledgement : WorkingSetDelta → Text
unfolding marked
acknowledgement d =
    codes "@@ -"
    ++ (show d.start_line
        ++ (codes ","
            ++ (show (length d.removed)
                ++ (codes " +"
                    ++ (show d.start_line
                        ++ (codes ","
                            ++ (show (length d.inserted)
                                ++ (codes " @@"
                                    ++ (newline
                                        ∷ (marked b'-' d.removed ++ marked b'+' d.inserted))))))))))
