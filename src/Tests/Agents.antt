-- ===== src/Tests/Agents.antt =====
-- A steward with one agent and one record, for backend/app/agents/service.py.
use can_framework.Prelude.{◌≡◌, refl, ◌⊎◌, true, none, some, [], ◌∷◌, ◌+◌, arith}
use can_framework.Prelude.Outcome.{ok, err, request}
use can_framework.Agents.Records.{
  Agent, AgentStatus, RecordStatus, RecomputeStatus, DerivedRecord, Db, Rules, Error,
}
use can_framework.Agents.Queue.{
  Draft, unreviewed_count, steward_unreviewed_count, ceiling_for, record_derived, new_record,
}
use can_framework.Agents.Review.{review_record}
use can_framework.Agents.Steps.{derives, reviews, record_at}
use can_framework.Agents.Bounds.{IsBounded, Step-IsBounded}
use can_framework.Agents.History.{Follows, Step-keeps_derivations}
use can_framework.Agents.Admission.{Admissible, record_derived_exact}

abbrev rules : Rules
rules = record {
  record_kinds = "check" ∷ [];
  max_unreviewed_records = 2;
  max_records_per_hour = 10;
  max_input_bytes = 100;
  max_unreviewed_per_steward = 3;
  max_agents_per_steward = 1;
  supersede_on_mismatch = true;
  now = 1_000;
  hour = 60;
  canonical_hash = λ s. s;
}

abbrev agent : Agent
agent = record {
  id = 1;
  did = "did:key:a";
  steward_user_id = 9;
  scopes = "score.derive" ∷ [];
  status = AgentStatus.active;
  max_unreviewed = none;
}

abbrev draft : Draft
draft = record {
  kind = "check";
  subject_ref = "asset:1";
  statement = "holds";
  inputs = "{}";
  output = "1";
  method = "m";
  confidence = none;
}

abbrev empty : Db
empty = record { agents = agent ∷ []; records = []; recomputations = []; fresh = 5 }

abbrev written : Db
written = (request (record_derived rules agent draft) empty).1

empty-IsBounded : IsBounded rules empty
unfolding steward_unreviewed_count unreviewed_count ceiling_for
empty-IsBounded = record { of_steward = λ s. omega arith; of_agent = (omega arith, tt) }

Step-IsBounded_example : IsBounded rules written
Step-IsBounded_example = Step-IsBounded (derives agent draft (λ e. refl, tt)) empty-IsBounded

record_derived_exact_example :
    let r : DerivedRecord = record {
      id = empty.fresh;
      created_at = rules.now;
      agent_id = agent.id;
      derivation = record {
        kind = draft.kind;
        subject_ref = draft.subject_ref;
        statement = draft.statement;
        inputs = draft.inputs;
        inputs_hash = rules.canonical_hash draft.inputs;
        output = draft.output;
        output_hash = rules.canonical_hash draft.output;
        method = draft.method;
        confidence = draft.confidence;
      };
      status = RecordStatus.unreviewed;
      recompute_status = RecomputeStatus.unchecked;
      reviewed_by = none;
      reviewed_at = none;
      review_note = none;
    } in
    (Admissible rules agent draft empty
      × (request (record_derived rules agent draft) empty
          ≡ (ok r, record empty { records = r ∷ []; fresh = empty.fresh + 1 })))
    ⊎ (¬ Admissible rules agent draft empty
        × ((e : Error) × (request (record_derived rules agent draft) empty ≡ (err e, empty))))
record_derived_exact_example = record_derived_exact rules agent draft empty

abbrev filled : Db
filled = (new_record rules agent draft empty).1

abbrev row : DerivedRecord
row = (new_record rules agent draft empty).0

Step-keeps_derivations_example :
    (s : DerivedRecord) × (record_at 5
        (request (review_record rules row true "fine" "reviewer") filled).1
      ≡ some s)
    × Follows row s
Step-keeps_derivations_example =
    Step-keeps_derivations 5 row (reviews row true "fine" "reviewer" refl) refl
