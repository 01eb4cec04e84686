-- ===== src/Batching/Tests.antt =====
-- The batches of src/subscription/transaction.rs with a sink that fails once, and the theorems on
-- them.
use beave_rs.Base.{
  ℕ, ◌+◌, ◌≡◌, nat_beq, ltb, true, false, if◌then◌else◌, Option, none, some, List, [], ◌∷◌, All,
}
use beave_rs.Base.Results.{ok, err}
use beave_rs.Errors.{foreign}
use beave_rs.Retry.{default_policy}
use beave_rs.Batching.{Entry, Outside, Committer, Committed, Arrival, Ran, commit, run}
use beave_rs.Batching.Committing.{commit_returns}
use beave_rs.Batching.Attempts.{IsProper, GivesUp, failures, commit_lem}
use beave_rs.Batching.Answers.{settled, received, run_settles}
use beave_rs.Batching.Orders.{Orderly, run-Orderly}

-- The world counts commits; the first one fails, and the token 7 is cancelled after it.
abbrev once_failing : Outside ℕ ℕ ℕ
once_failing = record {
  commit = λ batch w. (if nat_beq w 0 then err (foreign "reset") else ok tt, w + 1);
  sleep = λ d w. w;
  is_cancelled = λ t w. if nat_beq t 7 then ltb 0 w else false;
  is_closed = λ d w. false;
  random = λ w. 0;
  quote = λ s. s;
}

abbrev committer : Committer ℕ ℕ ℕ
committer = record {
  sink = once_failing;
  batch = record { max_deliveries = 2; max_linger = 10 };
  policy = default_policy;
}

abbrev entry : ℕ → Option ℕ → Entry ℕ ℕ
entry d t = record { delivery = d; outputs = d ∷ []; revocation = t; enlisted = 0; done = d }

abbrev enlist : Entry ℕ ℕ → Arrival ℕ ℕ ℕ
enlist e = record { meanwhile = λ w. w; entry = some e }

abbrev linger : Arrival ℕ ℕ ℕ
linger = record { meanwhile = λ w. w; entry = none }

abbrev one : Entry ℕ ℕ
one = entry 1 none

abbrev two : Entry ℕ ℕ
two = entry 2 (some 7)

abbrev three : Entry ℕ ℕ
three = entry 3 none

abbrev arrivals : List (Arrival ℕ ℕ ℕ)
arrivals = enlist one ∷ enlist two ∷ enlist three ∷ linger ∷ []

commit_returns_example : (r : Committed ℕ ℕ ℕ) × (commit committer (one ∷ two ∷ []) 0 ≡ some r)
commit_returns_example = commit_returns committer (one ∷ two ∷ []) 0

commit_lem_example :
    (r : Committed ℕ ℕ ℕ) × (commit committer (one ∷ two ∷ []) 0 ≡ some r)
    × All (IsProper committer 2) r.trace
    × GivesUp committer (failures committer r.trace) r.result
commit_lem_example = commit_lem committer (one ∷ two ∷ []) 0

run_settles_example :
    (r : Ran ℕ ℕ ℕ) × (run committer arrivals 0 ≡ some r)
    × (settled (λ m. true) r.trace ≡ received (λ m. true) arrivals)
run_settles_example = run_settles committer (λ m. true) arrivals 0

run-Orderly_example :
    (r : Ran ℕ ℕ ℕ) × (run committer arrivals 0 ≡ some r) × Orderly [] false r.trace
run-Orderly_example = run-Orderly committer arrivals 0
