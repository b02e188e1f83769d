-- ===== src/Agents/Records.antt =====
-- The rows of backend/app/agents/models.py and the rules of backend/app/agents/config.py.
use can_framework.Prelude.{ℕ, Bool, Option, List, [], ◌∷◌, String, str_eq, if◌then◌else◌}
use can_framework.Money.{Amount}

pub data AgentStatus : Type 0 where
  active suspended revoked : AgentStatus

pub data RecordStatus : Type 0 where
  unreviewed confirmed rejected superseded : RecordStatus

pub data RecomputeStatus : Type 0 where
  unchecked matched mismatched : RecomputeStatus

pub record Agent : Type 0 where
  pub id : ℕ
  pub did : String
  pub steward_user_id : ℕ
  pub scopes : List String
  pub status : AgentStatus
  pub max_unreviewed : Option ℕ

-- What an agent derived and how: the columns that a review leaves alone. Inputs and output are their
-- JSON text.
pub record Derivation : Type 0 where
  pub kind : String
  pub subject_ref : String
  pub statement : String
  pub inputs : String
  pub inputs_hash : String
  pub output : String
  pub output_hash : String
  pub method : String
  pub confidence : Option Amount

pub record DerivedRecord : Type 0 where
  pub id : ℕ
  pub created_at : ℕ
  pub agent_id : ℕ
  pub derivation : Derivation
  pub status : RecordStatus
  pub recompute_status : RecomputeStatus
  pub reviewed_by : Option String
  pub reviewed_at : Option ℕ
  pub review_note : Option String

pub record Recomputation : Type 0 where
  pub id : ℕ
  pub record_id : ℕ
  pub by_subject : String
  pub output : String
  pub output_hash : String
  pub method : String
  pub result : RecomputeStatus
  pub note : Option String

pub record Db : Type 0 where
  pub agents : List Agent
  pub records : List DerivedRecord
  pub recomputations : List Recomputation
  pub fresh : ℕ

-- `AgentRules`, with the clock, the length of an hour on it, and `canonical_hash`: SHA-256 of the
-- canonical text.
pub record Rules : Type 0 where
  pub record_kinds : List String
  pub max_unreviewed_records : ℕ
  pub max_records_per_hour : ℕ
  pub max_input_bytes : ℕ
  pub max_unreviewed_per_steward : ℕ
  pub max_agents_per_steward : ℕ
  pub supersede_on_mismatch : Bool
  pub now : ℕ
  pub hour : ℕ
  pub canonical_hash : String → String

-- KIND_SCOPES
unfoldable pub scopes_for_kind : String → List String
scopes_for_kind kind =
    if str_eq kind "valuation"
    then "value.derive" ∷ []
    else if str_eq kind "check"
    then "value.derive" ∷ "score.derive" ∷ "general.derive" ∷ []
    else if str_eq kind "score"
    then "score.derive" ∷ []
    else if str_eq kind "summary"
    then "general.derive" ∷ []
    else if str_eq kind "recommendation"
    then "general.derive" ∷ "value.derive" ∷ "score.derive" ∷ []
    else if str_eq kind "recompute"
    then "value.derive" ∷ "score.derive" ∷ "general.derive" ∷ []
    else []

-- `AgentForbidden`, `AgentError` and `QueueFull`, by their messages.
pub data Error : Type 0 where
  not_active unknown_kind no_scope inputs_too_long too_fast queue_full steward_queue_full : Error
  already_reviewed own_record too_many_agents : Error
