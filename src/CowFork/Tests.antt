-- ===== src/CowFork/Tests.antt =====
-- A vault in memory, two small sessions, and the theorems at them.
use tokenzero.Base.{
  ◌≡◌, refl, true, false, none, some, List, [], ◌∷◌, ◌++◌, Text, codes, text_eq, length, ok,
  if◌then◌else◌,
}
use tokenzero.Base.Decimal.{show}
use tokenzero.WorkingSet.Host.{ExpansionResult}
use tokenzero.CowFork.{
  BranchRestorePoint, CowSession, Vault, rendered, fork, append, discard, restore, checkpoint,
  persist_ledger, flush,
}
use tokenzero.CowFork.History.{
  Operation, append_text, seal, drop_novelty, bring_back, IsSealed, run, run-IsSealed,
}
use tokenzero.CowFork.Recovery.{restore-discard, fork-rendered, rendered-append-checkpoint}

-- Texts under refs, the last one first.
abbrev Blobs : Type 0
Blobs = List (Text × Text)

abbrev ref_of : Blobs → Text
ref_of blobs = codes "tz://blob/" ++ show (length blobs)

abbrev find_blob : Blobs → Text → ExpansionResult
find_blob [] ref = record { found = false; content = [] }
find_blob ((k, text) ∷ blobs) ref =
    if text_eq k ref then record { found = true; content = text } else find_blob blobs ref

abbrev put : Blobs → Text → Text × Blobs
put blobs text = (ref_of blobs, (ref_of blobs, text) ∷ blobs)

abbrev memory : Vault
memory = record {
  Store = Blobs;
  StoreError = Unit {0};
  JsonError = Unit {0};
  store_text_deferred = put;
  store_json_deferred = put;
  persist_pending = λ blobs. (ok tt, blobs);
  expand_raw = λ blobs ref. (find_blob blobs ref, blobs);
  sha256_hex = λ text. text;
  entry_json = λ entry. ok entry.branch_id;
}

abbrev root : CowSession
root = record {
  branch_id = codes "root";
  parent_branch_id = none;
  shared_prefix = codes "base ";
  breakpoint_sha256 = codes "base ";
  novelty = [];
  ledger_refs = [];
  at_breakpoint = true;
}

abbrev blobs : Blobs
blobs = (codes "tz://blob/0", codes "news") ∷ []

-- The branch after "news" was appended.
abbrev grown : CowSession
grown = record root {
  novelty = (record { recovery_ref = codes "tz://blob/0"; bytes = 4 }, codes "news") ∷ [];
  at_breakpoint = false;
}

root-IsSealed : IsSealed memory root
root-IsSealed = record { breakpoint = refl; fingerprint = refl }

appended : rendered ((append memory root [] (codes "news")).1) ≡ codes "base news"
unfolding append rendered persist_ledger flush show mathlib.Core.List.flatten
appended = refl

abbrev point : BranchRestorePoint
point = record {
  branch_id = codes "root";
  records = record { recovery_ref = codes "tz://blob/0"; bytes = 4 } ∷ [];
  discard_ledger_ref = codes "tz://blob/1";
}

abbrev later : Blobs
later = (codes "tz://blob/1", codes "root") ∷ blobs

abbrev cleared : CowSession
cleared = record root { ledger_refs = codes "tz://blob/1" ∷ [] }

discarded_point : discard memory grown blobs ≡ (ok point, cleared, later)
unfolding discard persist_ledger flush show
discarded_point = refl

recovered :
    (find_blob later (codes "tz://blob/0")) ≡ record { found = true; content = codes "news" }
unfolding text_eq
recovered = refl

restore-discard_example : rendered ((restore memory cleared later point).1) ≡ rendered grown
restore-discard_example =
    restore-discard memory grown cleared blobs later later point discarded_point (recovered, tt)

abbrev child : CowSession
child = record root {
  branch_id = codes "child";
  parent_branch_id = some (codes "root");
  ledger_refs = codes "tz://blob/1" ∷ [];
}

forked_child :
    fork memory root blobs (codes "child")
    ≡ (ok child, (codes "tz://blob/1", codes "child") ∷ blobs)
unfolding fork persist_ledger show
forked_child = refl

fork-rendered_example : rendered child ≡ rendered root
fork-rendered_example =
    fork-rendered memory root child blobs ((codes "tz://blob/1", codes "child") ∷ blobs)
      (codes "child") root-IsSealed forked_child

rendered-append-checkpoint_example :
    (rendered ((append memory grown blobs (codes "more")).1) ≡ rendered grown ++ codes "more")
    × (rendered ((checkpoint memory grown blobs).1) ≡ rendered grown)
rendered-append-checkpoint_example = rendered-append-checkpoint memory grown blobs (codes "more")

abbrev history : List Operation
history = append_text (codes "news") ∷ drop_novelty ∷ bring_back point ∷ seal ∷ []

run-IsSealed_example : IsSealed memory ((run memory history (root, [])).0)
run-IsSealed_example = run-IsSealed memory history root [] root-IsSealed
