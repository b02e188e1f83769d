-- ===== src/Agents/Queue.antt =====
-- The queues of backend/app/agents/service.py: counts, ceilings, `check_can_register` and
-- `record_derived`.
use can_framework.Prelude.{
  ℕ, zero, suc, ◌+◌, ◌-◌, Bool, true, false, not, Option, none, some, List, [], ◌∷◌, ◌++◌, String,
  str_eq, ◌==◌, ◌&&◌, ◌||◌, ltb, leb, if◌then◌else◌,
}
use can_framework.Prelude.Text
use can_framework.Prelude.Count.{count}
use can_framework.Prelude.Outcome.{Action, raise, gets, raise_if, save, ◌>>=◌}
use can_framework.Money.{Amount}
use can_framework.Agents.Records.{
  Agent, AgentStatus, Derivation, DerivedRecord, RecordStatus, RecomputeStatus, Db, Rules, Error,
  not_active, unknown_kind, no_scope, inputs_too_long, too_fast, queue_full, steward_queue_full,
  too_many_agents, scopes_for_kind,
}

abbrev pub Request : Type 0 → Type 0
Request = Action Db Error

abbrev pub is_unreviewed : RecordStatus → Bool
is_unreviewed RecordStatus.unreviewed = true
is_unreviewed _ = false

abbrev pub is_active : AgentStatus → Bool
is_active AgentStatus.active = true
is_active _ = false

abbrev pub is_revoked : AgentStatus → Bool
is_revoked AgentStatus.revoked = true
is_revoked _ = false

abbrev pub waits_for : ℕ → DerivedRecord → Bool
waits_for agent_id r = r.agent_id == agent_id && is_unreviewed r.status

unfoldable pub unreviewed_count : ℕ → Db → ℕ
unreviewed_count agent_id db = count (waits_for agent_id) db.records

-- `agent.max_unreviewed or rules.max_unreviewed_records`: 0 counts as not set.
unfoldable pub ceiling_for : Rules → Agent → ℕ
ceiling_for rules a = elim a.max_unreviewed [
  | none ↦ rules.max_unreviewed_records
  | some zero ↦ rules.max_unreviewed_records
  | some (suc n) ↦ suc n
]

-- Whether an id is among the agents of a steward.
unfoldable pub stewards : ℕ → ℕ → List Agent → Bool
stewards steward agent_id [] = false
stewards steward agent_id (a ∷ rest) =
    (a.steward_user_id == steward && a.id == agent_id) || stewards steward agent_id rest

abbrev pub waits_for_steward : List Agent → ℕ → DerivedRecord → Bool
waits_for_steward agents steward r = stewards steward r.agent_id agents && is_unreviewed r.status

unfoldable pub steward_unreviewed_count : ℕ → Db → ℕ
steward_unreviewed_count steward db = count (waits_for_steward db.agents steward) db.records

abbrev pub standing_with : ℕ → Agent → Bool
standing_with steward a = a.steward_user_id == steward && not (is_revoked a.status)

-- What `steward_queue_state` and `queue_state` answer.
pub record QueueState : Type 0 where
  pub unreviewed : ℕ
  pub ceiling : ℕ
  pub remaining : ℕ
  pub writes_paused : Bool

abbrev queue_of : ℕ → ℕ → QueueState
queue_of used ceiling = record {
  unreviewed = used;
  ceiling = ceiling;
  remaining = ceiling - used;
  writes_paused = leb ceiling used;
}

unfoldable pub steward_queue_state : Rules → ℕ → Db → QueueState
steward_queue_state rules steward db =
    queue_of (steward_unreviewed_count steward db) rules.max_unreviewed_per_steward

unfoldable pub queue_state : Rules → Agent → Db → QueueState
queue_state rules a db = queue_of (unreviewed_count a.id db) (ceiling_for rules a)

unfoldable pub check_can_register : Rules → ℕ → Request (Unit {0})
check_can_register rules steward = do
  active ← gets (λ db. count (standing_with steward) db.agents)
  raise_if (leb rules.max_agents_per_steward active) too_many_agents

-- What an agent asks to record.
pub record Draft : Type 0 where
  pub kind : String
  pub subject_ref : String
  pub statement : String
  pub inputs : String
  pub output : String
  pub method : String
  pub confidence : Option Amount

unfoldable pub mem_text : String → List String → Bool
mem_text s [] = false
mem_text s (t ∷ ts) = str_eq s t || mem_text s ts

unfoldable pub shares_scope : List String → List String → Bool
shares_scope [] scopes = false
shares_scope (s ∷ ss) scopes = mem_text s scopes || shares_scope ss scopes

abbrev pub recent_by : Rules → ℕ → DerivedRecord → Bool
recent_by rules agent_id r = r.agent_id == agent_id && leb rules.now (r.created_at + rules.hour)

-- The first reason to refuse a record; `none` lets it through.
unfoldable pub check_record : Rules → Agent → Draft → Db → Option Error
check_record rules a draft db =
    if not (is_active a.status)
    then some not_active
    else if not (mem_text draft.kind rules.record_kinds)
    then some unknown_kind
    else if not (shares_scope (scopes_for_kind draft.kind) a.scopes)
    then some no_scope
    else if ltb rules.max_input_bytes (Text.length draft.inputs)
    then some inputs_too_long
    else if leb rules.max_records_per_hour (count (recent_by rules a.id) db.records)
    then some too_fast
    else if leb (ceiling_for rules a) (unreviewed_count a.id db)
    then some queue_full
    else if leb rules.max_unreviewed_per_steward (steward_unreviewed_count a.steward_user_id db)
    then some steward_queue_full
    else none

abbrev pub derive : Rules → Draft → Derivation
derive rules draft = record {
  kind = draft.kind;
  subject_ref = draft.subject_ref;
  statement = draft.statement;
  inputs = draft.inputs;
  inputs_hash = rules.canonical_hash draft.inputs;
  output = draft.output;
  output_hash = rules.canonical_hash draft.output;
  method = draft.method;
  confidence = draft.confidence;
}

abbrev pub new_record : Rules → Agent → Draft → Db → DerivedRecord × Db
new_record rules a draft db =
    let r : DerivedRecord = record {
      id = db.fresh;
      created_at = rules.now;
      agent_id = a.id;
      derivation = derive rules draft;
      status = RecordStatus.unreviewed;
      recompute_status = RecomputeStatus.unchecked;
      reviewed_by = none;
      reviewed_at = none;
      review_note = none;
    } in
    (r, record db { records = db.records ++ r ∷ []; fresh = db.fresh + 1 })

abbrev pub record_checked : Rules → Agent → Draft → Option Error → Request DerivedRecord
record_checked rules a draft (some e) = raise e
record_checked rules a draft none = save (new_record rules a draft)

unfoldable pub record_derived : Rules → Agent → Draft → Request DerivedRecord
record_derived rules a draft = do
  refusal ← gets (check_record rules a draft)
  record_checked rules a draft refusal
