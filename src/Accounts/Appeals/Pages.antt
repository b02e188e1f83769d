-- ===== src/Accounts/Appeals/Pages.antt =====
-- The pages of backend/app/api/routes/allocation.py and backend/app/api/routes/appeals.py that only read.
use can_framework.Prelude.{
  ℕ, Bool, true, false, not, Option, none, some, List, [], ◌∷◌, String, str_eq, ◌||◌, if◌then◌else◌,
}
use can_framework.Prelude.Int.{ltb_ℤ}
use can_framework.Prelude.Outcome.{Result, ok, err}
use can_framework.Prelude.Table.{first, select}
use can_framework.Money.{Amount}
use can_framework.Accounts.Roles.{Role, Principal, User, has_role, has_any_role, can_view_user}
use can_framework.Accounts.Appeals.{
  AllocationRequest, Appeal, AppealStatus, DecisionDb, DecisionError, RequestStatus, appeal_with,
  current_user, request_with,
}

-- The pages of both.
abbrev pub oversees : Principal → Bool
oversees who = has_any_role who (Role.reviewer ∷ Role.admin ∷ Role.auditor ∷ [])

abbrev pub same_status : AppealStatus → AppealStatus → Bool
same_status AppealStatus.open_appeal AppealStatus.open_appeal = true
same_status AppealStatus.upheld AppealStatus.upheld = true
same_status AppealStatus.rejected AppealStatus.rejected = true
same_status _ _ = false

abbrev pub has_status : Option AppealStatus → Appeal → Bool
has_status none a = true
has_status (some s) a = same_status a.status s

unfoldable pub list_appeals :
    Principal → Option AppealStatus → DecisionDb → Result DecisionError (List Appeal)
list_appeals who status db =
    if oversees who
    then ok (select (has_status status) db.appeals)
    else err DecisionError.insufficient_role

abbrev pub shown_to :
    {A : Type 0} → Principal → Option User → (A → ℕ) → Option A → Result DecisionError A
shown_to who me owner none = err DecisionError.not_found
shown_to who me owner (some a) =
    if can_view_user who me (owner a) then ok a else err DecisionError.forbidden

abbrev pub appellant : Appeal → ℕ
appellant a = a.user_id

unfoldable pub get_appeal : Principal → ℕ → DecisionDb → Result DecisionError Appeal
get_appeal who id db =
    if not (has_role who.roles Role.user)
    then err DecisionError.insufficient_role
    else shown_to who (current_user db who) appellant (first (appeal_with id) db.appeals)

abbrev pub applicant : AllocationRequest → ℕ
applicant r = r.user_id

-- Without the explanation of its score.
unfoldable pub get_request : Principal → ℕ → DecisionDb → Result DecisionError AllocationRequest
get_request who id db =
    if not (has_role who.roles Role.user)
    then err DecisionError.insufficient_role
    else shown_to who (current_user db who) applicant (first (request_with id) db.requests)

abbrev pub same_request_status : RequestStatus → RequestStatus → Bool
same_request_status RequestStatus.submitted RequestStatus.submitted = true
same_request_status RequestStatus.approved RequestStatus.approved = true
same_request_status RequestStatus.declined RequestStatus.declined = true
same_request_status RequestStatus.reopened RequestStatus.reopened = true
same_request_status _ _ = false

abbrev pub in_status : Option RequestStatus → AllocationRequest → Bool
in_status none r = true
in_status (some s) r = same_request_status r.status s

abbrev pub in_pool : Option String → AllocationRequest → Bool
in_pool none r = true
in_pool (some pool) r = str_eq pool "" || str_eq r.pool pool

-- A score of null comes last, as in SQLite.
abbrev pub goes_first : Option Amount → Option Amount → Bool
goes_first none q = false
goes_first (some a) none = true
goes_first (some a) (some b) = ltb_ℤ b a

abbrev pub insert_request : AllocationRequest → List AllocationRequest → List AllocationRequest
insert_request r [] = r ∷ []
insert_request r (x ∷ xs) =
    if goes_first x.priority_score r.priority_score then x ∷ insert_request r xs else r ∷ x ∷ xs

-- The highest priority first, and of one priority the oldest.
unfoldable pub by_priority : List AllocationRequest → List AllocationRequest
by_priority [] = []
by_priority (r ∷ rs) = insert_request r (by_priority rs)

unfoldable pub list_requests :
    Principal
    → Option RequestStatus
    → Option String
    → DecisionDb
    → Result DecisionError (List AllocationRequest)
unfolding by_priority
list_requests who status pool db =
    if oversees who
    then ok (by_priority (select (in_pool pool) (select (in_status status) db.requests)))
    else err DecisionError.insufficient_role
