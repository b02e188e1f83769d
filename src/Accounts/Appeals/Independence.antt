-- ===== src/Accounts/Appeals/Independence.antt =====
-- That nobody decides for themselves: the requests of Accounts/Appeals as steps, and what they keep.
use can_framework.Prelude.{
  ℕ, ◌≤◌, ◌≡◌, refl, sym, Bool, true, false, Option, none, some, List, [], ◌∷◌, String, ◌==◌, arith,
  Bool-cases, inl, inr,
}
use mathlib.Core.Path.{subst}
use native.Mathlib.Nat.{le_trans}
use can_framework.Prelude.All.{All, All-append, All-adjust}
use can_framework.Prelude.Count.{count, count-append, count-adjust}
use can_framework.Prelude.Table.{first, adjust}
use can_framework.Accounts.Roles.{Principal, User, has_subject, is_reviewer}
use can_framework.Accounts.Appeals.{
  AllocationRequest, Appeal, DecisionDb, DecisionError, current_user, request_with, appeal_with,
  Snapshot, new_request, create_request, Decision, decided, is_user, check_decision, decide_checked,
  decide, is_open, open_against, is_there, check_appeal, new_appeal, create_checked, create_appeal,
  Verdict, appeal_status, check_verdict, resolved, reopen, with_verdict, resolve_checked,
  resolve_found, resolve_appeal,
}

-- The one who is named, if anyone, is not the person.
abbrev pub NotBy : List User → Option String → ℕ → Type 0
NotBy users none user_id = Unit
NotBy users (some s) user_id = is_user (first (has_subject s) users) user_id ≡ false

abbrev pub RequestFine : List User → AllocationRequest → Type 0
RequestFine users r = NotBy users r.decided_by r.user_id

abbrev pub AppealFine : List User → Appeal → Type 0
AppealFine users a = NotBy users a.resolved_by a.user_id

-- Nobody has decided on their own request or resolved their own appeal, and no request has two appeals that
-- are open.
pub record IsIndependent (db : DecisionDb) : Type 0 where
  pub requests : All (RequestFine db.users) db.requests
  pub appeals : All (AppealFine db.users) db.appeals
  pub one_open : (request_id : ℕ) → count (open_against request_id) db.appeals ≤ 1

pub data Step : DecisionDb → DecisionDb → Type 0 where
  submitted :
      (me : ℕ) (snap : Snapshot) (pool description : String) (db : DecisionDb)
      → Step db (create_request me snap pool description db).1
  decided_on :
      (who : Principal) (id : ℕ) (d : Decision) (reason : String) (now : ℕ) (db : DecisionDb)
      → Step db (decide who id d reason now db).1
  appealed :
      (me request_id : ℕ) (reason : String) (db : DecisionDb)
      → Step db (create_appeal me request_id reason db).1
  settled :
      (who : Principal) (id : ℕ) (v : Verdict) (note : String) (now : ℕ) (db : DecisionDb)
      → Step db (resolve_appeal who id v note now db).1

-- A write to the row that is found needs to be right for that row alone.
All-adjust_found :
    {A : Type 0} (P : A → Type 0) (q : A → Bool) (f : A → A) (xs : List A) (x : A)
    → first q xs ≡ some x
    → P (f x)
    → All P xs
    → All P (adjust q f xs)
All-adjust_found P q f [] x there fine all = tt
All-adjust_found P q f (y ∷ xs) x there fine all = elim (Bool-cases (q y)) [
  | inl here ↦
      let same : y ≡ x = ground arith in rw here (subst (λ z. P (f z)) (sym same) fine, all.1)
  | inr past ↦ rw past (all.0, All-adjust_found P q f xs x (ground arith) fine all.1)
]

decide_checked-IsIndependent :
    (who : Principal) (id : ℕ) (d : Decision) (reason : String) (now : ℕ)
    (found : Option AllocationRequest) (o : Option DecisionError) (db : DecisionDb)
    → first (request_with id) db.requests ≡ found
    → check_decision (first (has_subject who.sub) db.users) found ≡ o
    → IsIndependent db
    → IsIndependent (decide_checked id d reason who.sub now o db).1
decide_checked-IsIndependent who id d reason now found (some e) db there h fine = fine
decide_checked-IsIndependent who id d reason now none none db there h fine = absurd (ground arith)
decide_checked-IsIndependent who id d reason now (some r) none db there h fine = record {
  requests =
      All-adjust_found (RequestFine db.users) (request_with id) (decided d reason who.sub now)
        db.requests r there (ground arith) fine.requests;
  appeals = fine.appeals;
  one_open = fine.one_open;
}

request_with-found :
    (id : ℕ) (rs : List AllocationRequest) (r : AllocationRequest)
    → first (request_with id) rs ≡ some r
    → (r.id == id) ≡ true
request_with-found id [] r h = absurd (ground arith)
request_with-found id (x ∷ rs) r h = elim (Bool-cases (request_with id x)) [
  | inl here ↦ let same : x ≡ r = ground arith in subst (λ z. (z.id == id) ≡ true) same here
  | inr past ↦ request_with-found id rs r (ground arith)
]

count-none : (p : Appeal → Bool) (xs : List Appeal) → is_there (first p xs) ≡ false → count p xs ≡ 0
count-none p [] h = refl
count-none p (x ∷ xs) h = ground (arith, count-none p xs)

create_checked-IsIndependent :
    (me request_id : ℕ) (reason : String) (found : Option AllocationRequest)
    (o : Option DecisionError) (db : DecisionDb)
    → first (request_with request_id) db.requests ≡ found
    → check_appeal me found db.appeals ≡ o
    → IsIndependent db
    → IsIndependent (create_checked (new_appeal db.fresh me request_id reason) o db).1
create_checked-IsIndependent me request_id reason found (some e) db there h fine = fine
create_checked-IsIndependent me request_id reason none none db there h fine = absurd (ground arith)
create_checked-IsIndependent me request_id reason (some r) none db there h fine = record {
  requests = fine.requests;
  appeals =
      All-append (AppealFine db.users) db.appeals (new_appeal db.fresh me request_id reason)
        fine.appeals tt;
  one_open = λ id.
      let id_of : (r.id == request_id) ≡ true = request_with-found request_id db.requests r there in
      let none_open = count-none (open_against r.id) db.appeals (ground arith) in
      let more =
        count-append (open_against id) db.appeals (new_appeal db.fresh me request_id reason) in
      elim (Bool-cases (request_id == id)) [
        | inl same ↦
            let here : r.id ≡ id = ground arith in
            let before : count (open_against id) db.appeals ≡ 0 =
              subst (λ (i : ℕ). count (open_against i) db.appeals ≡ 0) here none_open in
            rw more (ground arith)
        | inr other ↦ rw more (ground (arith, fine.one_open id))
      ];
}

-- The write of a verdict keeps who decided on each request.
with_verdict-fine :
    (users : List User) (v : Verdict) (id : ℕ) (rs : List AllocationRequest)
    → All (RequestFine users) rs
    → All (RequestFine users) (with_verdict v id rs)
with_verdict-fine users Verdict.uphold id rs h =
    All-adjust (RequestFine users) (request_with id) reopen rs (λ r fine. fine) h
with_verdict-fine users Verdict.reject id rs h = h

verdict-closes : (v : Verdict) → is_open (appeal_status v) ≡ false
verdict-closes Verdict.uphold = refl
verdict-closes Verdict.reject = refl

appeal_with-id :
    (id : ℕ) (rs : List Appeal) (a : Appeal) → first (appeal_with id) rs ≡ some a → id ≡ a.id
appeal_with-id id [] a h = absurd (ground arith)
appeal_with-id id (x ∷ rs) a h = elim (Bool-cases (appeal_with id x)) [
  | inl here ↦
      let same : x ≡ a = ground arith in subst (λ (z : Appeal). id ≡ z.id) same (ground arith)
  | inr past ↦ appeal_with-id id rs a (ground arith)
]

resolve_checked-IsIndependent :
    (who : Principal) (a : Appeal) (v : Verdict) (note : String) (now : ℕ)
    (o : Option DecisionError) (db : DecisionDb)
    → first (appeal_with a.id) db.appeals ≡ some a
    → check_verdict who.sub
        (first (has_subject who.sub) db.users)
        a
        (first (request_with a.request_id) db.requests)
      ≡ o
    → IsIndependent db
    → IsIndependent (resolve_checked a v note who.sub now o db).1
resolve_checked-IsIndependent who a v note now (some e) db there h fine = fine
resolve_checked-IsIndependent who a v note now none db there h fine = record {
  requests = with_verdict-fine db.users v a.request_id db.requests fine.requests;
  appeals =
      All-adjust_found (AppealFine db.users) (appeal_with a.id) (resolved v note who.sub now)
        db.appeals a there (ground arith) fine.appeals;
  one_open = λ id.
      le_trans
        (count-adjust (open_against id) (appeal_with a.id) (resolved v note who.sub now) db.appeals
          (λ x still. absurd (ground (arith, verdict-closes v))))
        (fine.one_open id);
}

resolve_found-IsIndependent :
    (who : Principal) (id : ℕ) (v : Verdict) (note : String) (now : ℕ) (found : Option Appeal)
    (db : DecisionDb)
    → first (appeal_with id) db.appeals ≡ found
    → IsIndependent db
    → IsIndependent (resolve_found who v note now found db).1
resolve_found-IsIndependent who id v note now none db there fine = fine
resolve_found-IsIndependent who id v note now (some a) db there fine =
    resolve_checked-IsIndependent who a v note now
      (check_verdict who.sub (first (has_subject who.sub) db.users) a
        (first (request_with a.request_id) db.requests))
      db
      (subst (λ (i : ℕ). first (appeal_with i) db.appeals ≡ some a)
        (appeal_with-id id db.appeals a there) there)
      refl fine

-- Whatever request about allocations and appeals comes, nobody has decided on their own request or resolved
-- their own appeal, and no request has two appeals that are open, if so it was before.
pub Step-IsIndependent : {db db' : DecisionDb} → Step db db' → IsIndependent db → IsIndependent db'
unfolding create_request decide create_appeal resolve_appeal current_user
Step-IsIndependent (submitted me snap pool description db) fine = record {
  requests =
      All-append (RequestFine db.users) db.requests (new_request db.fresh me snap pool description)
        fine.requests tt;
  appeals = fine.appeals;
  one_open = fine.one_open;
}
Step-IsIndependent (decided_on who id d reason now db) fine = elim (Bool-cases (is_reviewer who)) [
  | inr stop ↦ rw stop fine
  | inl may ↦ rw may (
      decide_checked-IsIndependent who id d reason now (first (request_with id) db.requests)
        (check_decision (first (has_subject who.sub) db.users)
          (first (request_with id) db.requests))
        db refl refl fine)
]
Step-IsIndependent (appealed me request_id reason db) fine =
    create_checked-IsIndependent me request_id reason (first (request_with request_id) db.requests)
      (check_appeal me (first (request_with request_id) db.requests) db.appeals) db refl refl fine
Step-IsIndependent (settled who id v note now db) fine = elim (Bool-cases (is_reviewer who)) [
  | inr stop ↦ rw stop fine
  | inl may ↦ rw may (
      resolve_found-IsIndependent who id v note now (first (appeal_with id) db.appeals) db refl
        fine)
]
