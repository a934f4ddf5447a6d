-- ===== src/WorkingSet/Tests.antt =====
-- A host in memory, small working sets, and the theorems at them.
use tokenzero.Base.{
  ◌≤◌, some, split_once, ◌≡◌, refl, true, false, none, List, [], ◌∷◌, ◌++◌, Text, codes, text_eq,
  length, replicate, filter, not, ok, if◌then◌else◌, arith,
}
use tokenzero.Base.Decimal.{show}
use tokenzero.WorkingSet.Host.{Host, ExpansionResult}
use tokenzero.WorkingSet.State.{
  visible_lines, EvictedSpan, visible_text, SpanAnchor, resident, evicted, ResidentSpan, WorkingSet,
  new, find_span,
}
use tokenzero.WorkingSet.Refs.{get_ref}
use tokenzero.WorkingSet.Ops.{
  resident_index, evict, enforce_budget, enforce_loop, used_tokens, choose_victim, page_out_at,
  page_out_span, paged_out, format_ref_line, normalize_path, and_then,
}
use tokenzero.WorkingSet.Admit.{admit, link_refs}
use tokenzero.WorkingSet.Rehydrate.{rehydrate_ref}
use tokenzero.WorkingSet.Book.{IsValid, IsSound}
use tokenzero.WorkingSet.Book.Admission.{IsAdmitted, admit-IsAdmitted}
use tokenzero.WorkingSet.Book.Exact.{rehydrate_ref-evict}
use tokenzero.WorkingSet.Book.Floor.{IsMet, enforce_budget-IsMet}
use tokenzero.WorkingSet.Book.Paging.{rehydrate_ref-IsSound, evict-link_refs-IsSound}

-- Texts under refs and aliases.
abbrev Blobs : Type 0
Blobs = List (Text × Text)

abbrev find_blob : Blobs → Text → ExpansionResult
find_blob [] ref = record { found = false; content = [] }
find_blob ((k, text) ∷ blobs) ref =
    if text_eq k ref then record { found = true; content = text } else find_blob blobs ref

abbrev memory : Host
memory = record {
  Store = Blobs;
  StoreError = Unit {0};
  count_tokens = length;
  json_string = λ text. text;
  store_blob = λ blobs text. (
    ok (codes "tz://blob/" ++ show (length blobs)),
    (codes "tz://blob/" ++ show (length blobs), text) ∷ blobs,
  );
  store_alias = λ blobs alias source. (ok tt, (alias, (find_blob blobs source).content) ∷ blobs);
  has_alias = λ blobs key. (find_blob blobs key).found;
  remove_alias = λ blobs key. filter (λ entry. not (text_eq entry.0 key)) blobs;
  expand = λ blobs ref start end. (find_blob blobs ref, blobs);
}

abbrev anchor : SpanAnchor
anchor = record { path = codes "src/lib.rs"; symbol = none; start_line = 1; end_line = 2 }

abbrev shown : ResidentSpan
shown = record {
  id = 1;
  last_touched = 1;
  anchor = anchor;
  body = resident (codes "fn main() {}\nfn other() {}\n");
}

abbrev gone : ResidentSpan
gone = record {
  id = 2;
  last_touched = 2;
  anchor = record anchor { start_line = 3; end_line = 3 };
  body = evicted (codes "tz://blob/0") (codes "TZ-EVICT/1");
}

abbrev two : WorkingSet
two = record (new 100) {
  sequence = 2;
  spans = shown ∷ gone ∷ [];
  evicted_refs = (codes "tz://blob/0", 2 ∷ []) ∷ [];
}

abbrev blobs : Blobs
blobs = (codes "tz://blob/0", codes "fn third() {}\n") ∷ []

two-IsValid : IsValid two
unfolding find_span get_ref text_eq
two-IsValid = record {
  distinct = (((λ e. ground (arith, e)), tt), (tt, tt));
  issued = (omega arith, (omega arith, tt));
  pointing = (((gone, refl, refl), tt), tt);
  owned = (tt, (refl, tt));
}

rehydrate_ref-IsSound_example :
    IsSound memory (rehydrate_ref memory two blobs (codes "tz://blob/0") none none 7)
rehydrate_ref-IsSound_example =
    rehydrate_ref-IsSound memory two blobs (codes "tz://blob/0") none none 7 (omega arith)
      two-IsValid

evict-link_refs-IsSound_example :
    IsSound memory (evict memory two blobs 1)
    × IsSound memory (link_refs memory two blobs (codes "tz://blob/0") (codes "tz://file/third"))
evict-link_refs-IsSound_example =
    evict-link_refs-IsSound memory two blobs 1 (codes "tz://blob/0") (codes "tz://file/third")
      two-IsValid

admit-IsAdmitted_example :
    IsAdmitted memory (admit memory two blobs (codes "fn main() { other() }\n") anchor)
admit-IsAdmitted_example =
    admit-IsAdmitted memory two blobs (codes "fn main() { other() }\n") anchor (omega arith)
      two-IsValid

-- A budget that the resident text exceeds.
abbrev long : Text
long = replicate 200 b'a'

abbrev tight : WorkingSet
tight = record two {
  budget_tokens = 150;
  spans = record shown { body = resident long } ∷ gone ∷ [];
}

abbrev paged : EvictedSpan
paged = record {
  id = 1;
  ref_id = codes "tz://blob/1";
  replacement = format_ref_line memory (codes "tz://blob/1") anchor;
  bytes_evicted = 200;
}

abbrev after : WorkingSet
after = (enforce_budget memory tight blobs).1

paged_out_long :
    enforce_budget memory tight blobs
    ≡ (ok (paged ∷ []), after, (enforce_budget memory tight blobs).2)
unfolding enforce_budget enforce_loop used_tokens choose_victim page_out_at page_out_span paged_out
    format_ref_line normalize_path show visible_text and_then
paged_out_long = refl

enforce_budget-IsMet_example : IsMet memory after
enforce_budget-IsMet_example =
    enforce_budget-IsMet memory tight after blobs ((enforce_budget memory tight blobs).2)
      (paged ∷ []) paged_out_long

abbrev new_ref : Text
new_ref = codes "tz://blob/1"

abbrev text_shown : Text
text_shown = codes "fn main() {}\nfn other() {}\n"

abbrev stored_blobs : Blobs
stored_blobs = (new_ref, text_shown) ∷ blobs

shown_index : resident_index 1 0 two.spans ≡ some 0
unfolding resident_index
shown_index = refl

shown_stored : memory.store_blob blobs text_shown ≡ (ok new_ref, stored_blobs)
unfolding show
shown_stored = refl

shown_expands :
    memory.expand stored_blobs new_ref none none
    ≡ (record { found = true; content = text_shown }, stored_blobs)
unfolding text_eq
shown_expands = refl

whole_ref : split_once b'#' new_ref ≡ none
unfolding split_once
whole_ref = refl

unused_ref : get_ref new_ref two.evicted_refs ≡ none
unfolding get_ref text_eq
unused_ref = refl

within_budget : used_tokens memory two.spans ≤ two.budget_tokens
unfolding used_tokens visible_text new
within_budget = omega arith

rehydrate_ref-evict_example :
    (w1 w2 : WorkingSet) × (store3 : Blobs) × (gone : EvictedSpan) × (evict memory two blobs 1
      ≡ (ok (some gone), w1, stored_blobs))
    × (rehydrate_ref memory w1 stored_blobs new_ref none none 7 ≡ (
      ok (some (record { id = 1; anchor = anchor; partial = false; evicted = [] })),
      w2,
      store3,
    ))
    × (visible_lines w2 ≡ visible_lines two)
rehydrate_ref-evict_example =
    rehydrate_ref-evict memory two blobs stored_blobs stored_blobs 1 0 shown text_shown new_ref 7
      two-IsValid shown_index refl refl shown_stored shown_expands whole_ref unused_ref
      within_budget
