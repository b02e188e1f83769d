-- ===== src/Agents/Review.antt =====
-- The review and the recomputation of records in backend/app/agents/service.py.
use can_framework.Prelude.{
  ℕ, ◌+◌, Bool, true, false, not, Option, none, some, [], ◌∷◌, ◌++◌, String, str_eq, ◌==◌, ◌&&◌,
  if◌then◌else◌,
}
use can_framework.Prelude.Table.{first, adjust}
use can_framework.Prelude.Outcome.{raise, gets, raise_if, save, ◌>>=◌, ◌>>◌}
use can_framework.Agents.Records.{
  Agent, DerivedRecord, RecordStatus, Recomputation, RecomputeStatus, Db, Rules, already_reviewed,
  own_record,
}
use can_framework.Agents.Queue.{Request, is_unreviewed}

abbrev pub record_with : ℕ → DerivedRecord → Bool
record_with id r = r.id == id

abbrev pub agent_with : ℕ → Agent → Bool
agent_with id a = a.id == id

abbrev pub reviewed : Rules → Bool → String → String → DerivedRecord → DerivedRecord
reviewed rules accept words reviewer r = record r {
  status = if accept then RecordStatus.confirmed else RecordStatus.rejected;
  review_note = some words;
  reviewed_by = some reviewer;
  reviewed_at = some rules.now;
}

unfoldable pub review_record :
    Rules → DerivedRecord → Bool → String → String → Request DerivedRecord
review_record rules r accept words reviewer = do
  raise_if (not (is_unreviewed r.status)) already_reviewed
  save (λ db. (
    reviewed rules accept words reviewer r,
    record db {
      records = adjust (record_with r.id) (reviewed rules accept words reviewer) db.records;
    },
  ))

unfoldable pub agent_did : DerivedRecord → Db → Option String
agent_did r db = elim (first (agent_with r.agent_id) db.agents) [
  | none ↦ none
  | some a ↦ some a.did
]

unfoldable pub is_did : String → Option String → Bool
is_did subject none = false
is_did subject (some did) = str_eq subject did

abbrev pub result_of : Bool → RecomputeStatus
result_of true = RecomputeStatus.matched
result_of false = RecomputeStatus.mismatched

abbrev pub matches : Rules → String → DerivedRecord → Bool
matches rules output r = str_eq (rules.canonical_hash output) r.derivation.output_hash

abbrev pub supersedes : Rules → Bool → Bool
supersedes rules matched = not matched && rules.supersede_on_mismatch

abbrev pub recomputed : Rules → Bool → DerivedRecord → DerivedRecord
recomputed rules matched r = record r {
  recompute_status = result_of matched;
  status = if supersedes rules matched then RecordStatus.superseded else r.status;
}

abbrev pub new_recomputation :
    Rules → DerivedRecord → String → String → String → Option String → ℕ → Recomputation
new_recomputation rules r output method subject words id = record {
  id = id;
  record_id = r.id;
  by_subject = subject;
  output = output;
  output_hash = rules.canonical_hash output;
  method = method;
  result = result_of (matches rules output r);
  note = words;
}

abbrev pub rerun :
    Rules → DerivedRecord → String → String → String → Option String → Db → Recomputation × Db
rerun rules r output method subject words db =
    let x = new_recomputation rules r output method subject words db.fresh in
    (
      x,
      record db {
        records = adjust (record_with r.id) (recomputed rules (matches rules output r)) db.records;
        recomputations = db.recomputations ++ x ∷ [];
        fresh = db.fresh + 1;
      },
    )

-- A record is recomputed by someone else than the agent that produced it.
abbrev pub rerun_unless :
    Bool → Rules → DerivedRecord → String → String → String → Option String → Request Recomputation
rerun_unless true rules r output method subject words = raise own_record
rerun_unless false rules r output method subject words =
    save (rerun rules r output method subject words)

-- A mismatch supersedes the original.
unfoldable pub recompute :
    Rules → DerivedRecord → String → String → String → Option String → Request Recomputation
recompute rules r output method subject words = do
  did ← gets (agent_did r)
  rerun_unless (is_did subject did) rules r output method subject words
