-- ===== src/Ci/Queue/Logs.antt =====
-- job_queue.rs: the logs of a build.
use procurator.Prelude.{
  ℕ, String, ◌≡◌, refl, ◌≢◌, not, none, some, List, [], ◌∷◌, ◌++◌, arith, str_eq, ◌==◌,
  if◌then◌else◌, retain, ok,
}
use text.Mathlib.TextLemmas.{append-nil}
use procurator.Ci.Queue.{
  World, LogRow, query, fault, lines_of, join, joined, get_build_logs, append_log, set_logs,
}

lines_of-without :
    (id : ℕ) (rows : List LogRow) → lines_of id (retain (λ r. not (r.build_id == id)) rows) ≡ []
unfolding retain
lines_of-without id [] = refl
lines_of-without id (r ∷ rows) = ground (arith, lines_of-without id rows)

lines_of-others :
    (id j : ℕ) (rows : List LogRow)
    → j ≢ id
    → lines_of j (retain (λ r. not (r.build_id == id)) rows) ≡ lines_of j rows
unfolding retain
lines_of-others id j [] ne = refl
lines_of-others id j (r ∷ rows) ne = ground (arith, lines_of-others id j rows ne)

lines_of-append :
    (id : ℕ) (rows : List LogRow) (r : LogRow)
    → lines_of id (rows ++ (r ∷ []))
      ≡ (if r.build_id == id then lines_of id rows ++ (r ∷ []) else lines_of id rows)
unfolding retain
lines_of-append id [] r = ground arith
lines_of-append id (s ∷ rows) r = ground (arith, lines_of-append id rows r)

-- The log rows after the logs of a build are set.
reset : ℕ → String → List LogRow → List LogRow
reset id text rows =
    let kept = retain (λ r. not (r.build_id == id)) rows in
    if str_eq text "" then kept else kept ++ (record { build_id = id; log_line = text } ∷ [])

set_logs-reset :
    (w : World) (id : ℕ) (text : String)
    → w.faults ≡ []
    → ((set_logs id text w).1.faults ≡ [])
      × ((set_logs id text w).1.db.build_logs ≡ reset id text w.db.build_logs)
unfolding set_logs append_log query fault reset
set_logs-reset w id text calm = ground arith

get_build_logs-joined :
    (w : World) (j : ℕ)
    → w.faults ≡ []
    → (get_build_logs j w).0 ≡ ok (joined (lines_of j w.db.build_logs))
unfolding get_build_logs query fault
get_build_logs-joined w j calm = ground arith

joined-reset :
    (id j : ℕ) (text : String) (rows : List LogRow)
    → joined (lines_of j (reset id text rows))
      ≡ (if j == id then (if str_eq text "" then none else some text) else joined (lines_of j rows))
unfolding reset join
joined-reset id j text rows = ground (
  arith,
  lines_of-without j rows,
  lines_of-others id j rows,
  lines_of-append j (retain (λ r. not (r.build_id == id)) rows)
      (record { build_id = id; log_line = text }),
  append-nil text,
)

-- With no statement failing, the logs of a build that are set are the logs that are read, an empty
-- text reads as no logs, and the logs of all other builds stay.
pub get-set_logs :
    (w : World) (id j : ℕ) (text : String)
    → w.faults ≡ []
    → (get_build_logs j (set_logs id text w).1).0 ≡ (
        if j == id then ok (if str_eq text "" then none else some text) else (get_build_logs j w).0)
get-set_logs w id j text calm =
    let after = set_logs-reset w id text calm in
    ground (
      arith,
      get_build_logs-joined w j calm,
      get_build_logs-joined (set_logs id text w).1 j after.0,
      after.1,
      joined-reset id j text w.db.build_logs,
    )
