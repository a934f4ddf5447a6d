-- ===== src/WorkingSet/Delta/Tests.antt =====
-- The delta between two small texts, and the theorems at them.
use tokenzero.Base.{◌≡◌, refl, some, [], ◌∷◌, Text, codes, arith, text_eq}
use mathlib.Core.List.{flatten}
use tokenzero.Base.Decimal.{show}
use tokenzero.WorkingSet.Delta.{
  WorkingSetDelta, split_exact_lines, common, lines_eq, delta_between, integrate_delta,
  acknowledgement,
}
use tokenzero.WorkingSet.Delta.RoundTrip.{integrate_delta-delta_between}

abbrev old : Text
old = codes "one\ntwo\nthree"

abbrev new : Text
new = codes "one\n2\nthree"

abbrev change : WorkingSetDelta
change = record { start_line = 2; removed = codes "two\n" ∷ []; inserted = codes "2\n" ∷ [] }

changed_line : delta_between old new ≡ change
unfolding delta_between split_exact_lines common text_eq
changed_line = refl

acknowledged : acknowledgement change ≡ codes "@@ -2,1 +2,1 @@\n-two\n+2\n"
unfolding acknowledgement show
acknowledged = refl

empty_texts : delta_between [] [] ≡ record { start_line = 1; removed = []; inserted = [] }
unfolding delta_between split_exact_lines common
empty_texts = refl

integrate_change : integrate_delta old change ≡ some new
unfolding integrate_delta split_exact_lines lines_eq text_eq flatten
integrate_change = refl

integrate_delta-delta_between_example : integrate_delta old (delta_between old new) ≡ some new
unfolding split_exact_lines
integrate_delta-delta_between_example = integrate_delta-delta_between old new (omega arith)
