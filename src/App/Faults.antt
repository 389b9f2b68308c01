-- ===== src/App/Faults.antt =====
-- app.py: the log lines of `FaultReporter` over a history of polls.
use nd45_dtsu666_converter.App.{
  failure, FaultLine, still_failing, polling_recovered, FaultReporter, new_reporter, success,
  polling_failed,
}
use nd45_dtsu666_converter.Base.{
  arith, ◌++◌, ◌∷◌, [], List, false, true, Bool, refl, ◌≡◌, ◌+◌, suc, if◌then◌else◌, ltb, ℕ,
}

-- One poll as the reporter sees it: a failure at some time, or a success.
pub data Outcome : Type 0 where
  failed_at : ℕ → Outcome
  succeeded : Outcome

abbrev pub report : FaultReporter → Outcome → FaultReporter
report r (failed_at now) = failure r now
report r succeeded = success r

abbrev pub report_all : FaultReporter → List Outcome → FaultReporter
report_all r [] = r
report_all r (o ∷ os) = report_all (report r o) os

abbrev is_failed : FaultLine → Bool
is_failed polling_failed = true
is_failed _ = false

abbrev is_recovered : FaultLine → Bool
is_recovered (polling_recovered _) = true
is_recovered _ = false

pub count_lines : (FaultLine → Bool) → List FaultLine → ℕ
count_lines p [] = 0
count_lines p (l ∷ ls) = let rest = count_lines p ls in if p l then suc rest else rest

count_lines_append :
    (p : FaultLine → Bool) (xs ys : List FaultLine)
    → count_lines p (xs ++ ys) ≡ count_lines p xs + count_lines p ys
unfolding count_lines
count_lines_append p [] ys = omega arith
count_lines_append p (x ∷ xs) ys = ground (arith, count_lines_append p xs ys)

abbrev pub outages : FaultReporter → ℕ
outages r = count_lines is_failed r.fault_lines

abbrev pub recoveries : FaultReporter → ℕ
recoveries r = count_lines is_recovered r.fault_lines

-- The length of the unbroken row of failures that ends a history, on top of `n` before it.
abbrev pub trailing : ℕ → List Outcome → ℕ
trailing n [] = n
trailing n (failed_at _ ∷ os) = trailing (n + 1) os
trailing n (succeeded ∷ os) = trailing 0 os

abbrev pub is_failing : ℕ → Bool
is_failing n = ltb 0 n

-- The reporter after a history with `n` failures at its end.
record Reports (n : ℕ) (r : FaultReporter) : Type 0 where
  counted : r.count ≡ n
  flagged : r.failing ≡ is_failing n
  paired : outages r ≡ recoveries r + (if is_failing n then 1 else 0)

report-Reports :
    (n : ℕ) (r : FaultReporter) (o : Outcome)
    → Reports n r
    → Reports (trailing n (o ∷ [])) (report r o)
unfolding failure success count_lines
report-Reports n r (failed_at now) h = ground (
  arith,
  count_lines_append is_failed r.fault_lines (polling_failed ∷ []),
  count_lines_append is_recovered r.fault_lines (polling_failed ∷ []),
  count_lines_append is_failed r.fault_lines (still_failing (r.count + 1) ∷ []),
  count_lines_append is_recovered r.fault_lines (still_failing (r.count + 1) ∷ []),
)
report-Reports n r succeeded h = ground (
  arith,
  count_lines_append is_failed r.fault_lines (polling_recovered r.count ∷ []),
  count_lines_append is_recovered r.fault_lines (polling_recovered r.count ∷ []),
)

report_all-Reports :
    (n : ℕ) (r : FaultReporter) (os : List Outcome)
    → Reports n r
    → Reports (trailing n os) (report_all r os)
report_all-Reports n r [] h = h
report_all-Reports n r (failed_at now ∷ os) h =
    report_all-Reports (n + 1) (failure r now) os (report-Reports n r (failed_at now) h)
report_all-Reports n r (succeeded ∷ os) h =
    report_all-Reports 0 (success r) os (report-Reports n r succeeded h)

new_reporter-Reports : (interval : ℕ) → Reports 0 (new_reporter interval)
unfolding new_reporter count_lines
new_reporter-Reports interval = record { counted = refl; flagged = refl; paired = refl }

-- After any history of polls a new reporter is failing exactly if the last poll failed, its count
-- is the length of the row of failures at the end, and it has logged one "polling failed" line for
-- each recovery line and one more exactly if it is failing.
pub report_all_transitions :
    (interval : ℕ) (os : List Outcome)
    → let r = report_all (new_reporter interval) os in
      (r.count ≡ trailing 0 os)
      × (r.failing ≡ is_failing (trailing 0 os))
      × (outages r ≡ recoveries r + (if r.failing then 1 else 0))
report_all_transitions interval os =
    let h = report_all-Reports 0 (new_reporter interval) os (new_reporter-Reports interval) in
    (h.counted, h.flagged, rw h.flagged h.paired)
