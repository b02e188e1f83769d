-- ===== src/Accounts/Appeals.antt =====
-- Requests for an allocation and appeals against decisions: the rows of backend/app/db/models.py,
-- backend/app/services/allocation.py, and the handlers of backend/app/api/routes/allocation.py and
-- backend/app/api/routes/appeals.py. The score of a request comes with its snapshot.
pub mod Independence
pub mod Pages
use can_framework.Prelude.{
  ℕ, suc, Bool, true, false, not, Option, none, some, List, [], ◌∷◌, ◌++◌, String, str_eq, ◌==◌,
  ◌&&◌, ◌||◌, if◌then◌else◌,
}
use can_framework.Prelude.Int.{ltb_ℤ}
use can_framework.Prelude.Outcome.{Result, ok, err}
use can_framework.Prelude.Table.{first, select, adjust}
use can_framework.Money.{Amount}
use can_framework.Accounts.Roles.{
  Role, Principal, User, has_role, has_any_role, has_subject, can_view_user, is_reviewer,
}

pub data RequestStatus : Type 0 where
  submitted approved declined reopened : RequestStatus

pub record AllocationRequest : Type 0 where
  pub id : ℕ
  pub user_id : ℕ
  pub pool : String
  pub description : String
  pub status : RequestStatus
  pub priority_score : Option Amount
  pub score_snapshot_id : Option ℕ
  pub decided_by : Option String
  pub decided_at : Option ℕ
  pub decision_reason : Option String

pub data AppealStatus : Type 0 where
  open_appeal upheld rejected : AppealStatus

pub record Appeal : Type 0 where
  pub id : ℕ
  pub user_id : ℕ
  pub request_id : ℕ
  pub reason : String
  pub status : AppealStatus
  pub resolved_by : Option String
  pub resolved_at : Option ℕ
  pub resolution_note : Option String

pub record DecisionDb : Type 0 where
  pub users : List User
  pub requests : List AllocationRequest
  pub appeals : List Appeal
  pub fresh : ℕ

pub data DecisionError : Type 0 where
  insufficient_role not_found forbidden already_open already_resolved : DecisionError
  own_request own_appeal own_decision : DecisionError

-- `current_user_or_none`
unfoldable pub current_user : DecisionDb → Principal → Option User
current_user db p = first (has_subject p.sub) db.users

abbrev pub request_with : ℕ → AllocationRequest → Bool
request_with id r = r.id == id

abbrev pub appeal_with : ℕ → Appeal → Bool
appeal_with id a = a.id == id

-- What `calculate_and_store` leaves: its id and the overall score.
pub record Snapshot : Type 0 where
  pub id : ℕ
  pub overall_score : Amount

abbrev pub new_request : ℕ → ℕ → Snapshot → String → String → AllocationRequest
new_request id me snap pool description = record {
  id = id;
  user_id = me;
  pool = pool;
  description = description;
  status = RequestStatus.submitted;
  priority_score = some snap.overall_score;
  score_snapshot_id = some snap.id;
  decided_by = none;
  decided_at = none;
  decision_reason = none;
}

unfoldable pub create_request :
    ℕ → Snapshot → String → String → DecisionDb → AllocationRequest × DecisionDb
create_request me snap pool description db =
    let r = new_request db.fresh me snap pool description in
    (r, record db { requests = db.requests ++ r ∷ []; fresh = suc db.fresh })

-- DECISIONS: the schema admits no other word.
pub data Decision : Type 0 where
  approve decline : Decision

abbrev pub status_of : Decision → RequestStatus
status_of Decision.approve = RequestStatus.approved
status_of Decision.decline = RequestStatus.declined

abbrev pub decided : Decision → String → String → ℕ → AllocationRequest → AllocationRequest
decided d reason reviewer now r = record r {
  status = status_of d;
  decision_reason = some reason;
  decided_by = some reviewer;
  decided_at = some now;
}

abbrev pub is_user : Option User → ℕ → Bool
is_user none id = false
is_user (some u) id = u.id == id

-- The guards of `decide` on the request that is found, and what it then does.
abbrev pub check_decision : Option User → Option AllocationRequest → Option DecisionError
check_decision me none = some DecisionError.not_found
check_decision me (some r) = if is_user me r.user_id then some DecisionError.own_request else none

abbrev pub decide_checked :
    ℕ
    → Decision
    → String
    → String
    → ℕ
    → Option DecisionError
    → DecisionDb
    → Result DecisionError (Unit {0}) × DecisionDb
decide_checked id d reason reviewer now (some e) db = (err e, db)
decide_checked id d reason reviewer now none db = (
  ok tt,
  record db { requests = adjust (request_with id) (decided d reason reviewer now) db.requests },
)

unfoldable pub decide :
    Principal
    → ℕ
    → Decision
    → String
    → ℕ
    → DecisionDb
    → Result DecisionError (Unit {0}) × DecisionDb
unfolding current_user
decide who id d reason now db =
    if not (is_reviewer who)
    then (err DecisionError.insufficient_role, db)
    else decide_checked id d reason who.sub now
        (check_decision (current_user db who) (first (request_with id) db.requests)) db

abbrev pub is_open : AppealStatus → Bool
is_open AppealStatus.open_appeal = true
is_open _ = false

abbrev pub open_against : ℕ → Appeal → Bool
open_against request_id a = a.request_id == request_id && is_open a.status

abbrev pub is_there : Option Appeal → Bool
is_there none = false
is_there (some a) = true

-- The guards of `create`, and what it then does.
abbrev pub check_appeal : ℕ → Option AllocationRequest → List Appeal → Option DecisionError
check_appeal me none appeals = some DecisionError.not_found
check_appeal me (some r) appeals =
    if not (r.user_id == me)
    then some DecisionError.forbidden
    else if is_there (first (open_against r.id) appeals)
    then some DecisionError.already_open
    else none

abbrev pub new_appeal : ℕ → ℕ → ℕ → String → Appeal
new_appeal id me request_id reason = record {
  id = id;
  user_id = me;
  request_id = request_id;
  reason = reason;
  status = AppealStatus.open_appeal;
  resolved_by = none;
  resolved_at = none;
  resolution_note = none;
}

abbrev pub create_checked :
    Appeal → Option DecisionError → DecisionDb → Result DecisionError Appeal × DecisionDb
create_checked a (some e) db = (err e, db)
create_checked a none db =
    (ok a, record db { appeals = db.appeals ++ a ∷ []; fresh = suc db.fresh })

unfoldable pub create_appeal :
    ℕ → ℕ → String → DecisionDb → Result DecisionError Appeal × DecisionDb
create_appeal me request_id reason db =
    create_checked (new_appeal db.fresh me request_id reason)
      (check_appeal me (first (request_with request_id) db.requests) db.appeals) db

-- The outcomes that the schema admits.
pub data Verdict : Type 0 where
  uphold reject : Verdict

abbrev pub appeal_status : Verdict → AppealStatus
appeal_status Verdict.uphold = AppealStatus.upheld
appeal_status Verdict.reject = AppealStatus.rejected

abbrev pub decided_by_subject : String → Option AllocationRequest → Bool
decided_by_subject subject none = false
decided_by_subject subject (some r) = elim r.decided_by [ none ↦ false | some s ↦ str_eq s subject ]

-- The guards of `resolve` on the appeal that is found and on its request.
abbrev pub check_verdict :
    String → Option User → Appeal → Option AllocationRequest → Option DecisionError
check_verdict subject me a r =
    if not (is_open a.status)
    then some DecisionError.already_resolved
    else if is_user me a.user_id
    then some DecisionError.own_appeal
    else if decided_by_subject subject r
    then some DecisionError.own_decision
    else none

abbrev pub resolved : Verdict → String → String → ℕ → Appeal → Appeal
resolved v note reviewer now a = record a {
  status = appeal_status v;
  resolution_note = some note;
  resolved_by = some reviewer;
  resolved_at = some now;
}

abbrev pub reopen : AllocationRequest → AllocationRequest
reopen r = record r { status = RequestStatus.reopened }

-- An appeal that is upheld sends its request back for a fresh decision.
abbrev pub with_verdict : Verdict → ℕ → List AllocationRequest → List AllocationRequest
with_verdict Verdict.uphold request_id rs = adjust (request_with request_id) reopen rs
with_verdict Verdict.reject request_id rs = rs

abbrev pub resolve_checked :
    Appeal
    → Verdict
    → String
    → String
    → ℕ
    → Option DecisionError
    → DecisionDb
    → Result DecisionError (Unit {0}) × DecisionDb
resolve_checked a v note reviewer now (some e) db = (err e, db)
resolve_checked a v note reviewer now none db = (
  ok tt,
  record db {
    appeals = adjust (appeal_with a.id) (resolved v note reviewer now) db.appeals;
    requests = with_verdict v a.request_id db.requests;
  },
)

abbrev pub resolve_found :
    Principal
    → Verdict
    → String
    → ℕ
    → Option Appeal
    → DecisionDb
    → Result DecisionError (Unit {0}) × DecisionDb
resolve_found who v note now none db = (err DecisionError.not_found, db)
resolve_found who v note now (some a) db =
    resolve_checked a v note who.sub now
      (check_verdict who.sub (first (has_subject who.sub) db.users) a
        (first (request_with a.request_id) db.requests))
      db

unfoldable pub resolve_appeal :
    Principal → ℕ → Verdict → String → ℕ → DecisionDb → Result DecisionError (Unit {0}) × DecisionDb
resolve_appeal who id v note now db =
    if not (is_reviewer who)
    then (err DecisionError.insufficient_role, db)
    else resolve_found who v note now (first (appeal_with id) db.appeals) db
