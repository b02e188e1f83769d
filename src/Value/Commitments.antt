-- ===== src/Value/Commitments.antt =====
-- backend/app/value/commitments.py: which items answer a query, and how often one may ask. The keyed hash
-- of the coarse attributes is a parameter. An hour is the number of the hour, which orders as its text
-- `%Y%m%d%H` does.
pub mod Rate
use can_framework.Prelude.{
  ℕ, ◌+◌, ◌-◌, ◌/◌, Bool, true, false, not, Option, none, some, List, [], ◌∷◌, String, str_eq, ltb,
  leb, ◌==◌, ◌&&◌, ◌||◌, if◌then◌else◌,
}
use can_framework.Prelude.Table.{length, select}
use can_framework.Value.Records.{MapItem, ItemType, ItemStatus, Day, Period, Rules, MapDb}

-- `commitment`, at an epoch: a keyed hash over the type, the class, the region and the period.
abbrev pub Commit : Type 0
Commit = ItemType → String → String → Period → String

abbrev pub first_day : Option Day → Day → Day
first_day none created = created
first_day (some d) created = d

unfoldable pub period_of : MapItem → Period
period_of i =
    let d = first_day i.available_from i.created_at in
    record { year = d.year; quarter = (d.month - 1) / 3 + 1 }

unfoldable pub commitment_for : Commit → MapItem → String
unfolding period_of
commitment_for commit i = commit i.item_type i.item_class i.region (period_of i)

abbrev pub is_open : ItemStatus → Bool
is_open ItemStatus.open_item = true
is_open _ = false

abbrev pub findable : MapItem → Bool
findable i = i.discoverable && is_open i.status

abbrev pub commits_to : Commit → String → MapItem → Bool
commits_to commit target i = str_eq (commitment_for commit i) target

unfoldable pub matching_items : Commit → List MapItem → String → List MapItem
unfolding commitment_for
matching_items commit items target = select (commits_to commit target) (select findable items)

pub record Answer : Type 0 where
  pub commitment : String
  pub match : Bool
  pub node_id : Option String

abbrev pub answer : String → String → Bool → Answer
answer me target match = record {
  commitment = target;
  match = match;
  node_id = if match then some me else none;
}

unfoldable pub answer_query : Commit → Rules → String → List MapItem → String → Answer
unfolding matching_items
answer_query commit rules me items target =
    answer me target (leb rules.k_anonymity (length (matching_items commit items target)))

-- `_query_counts`, by the subject and the hour of `rate_key`.
pub record Counter : Type 0 where
  pub subject : String
  pub hour : ℕ
  pub calls : ℕ

abbrev pub rate_key : String → ℕ → Counter → Bool
rate_key subject hour c = str_eq c.subject subject && c.hour == hour

abbrev pub calls_of : String → ℕ → List Counter → ℕ
calls_of subject hour [] = 0
calls_of subject hour (c ∷ cs) =
    if rate_key subject hour c then c.calls else calls_of subject hour cs

unfoldable pub one_more : String → ℕ → List Counter → List Counter
one_more subject hour [] = record { subject = subject; hour = hour; calls = 1 } ∷ []
one_more subject hour (c ∷ cs) =
    if rate_key subject hour c
    then record c { calls = c.calls + 1 } ∷ cs
    else c ∷ one_more subject hour cs

-- What is left of the counters where there are too many: those of the last two hours.
abbrev pub still_counts : ℕ → Counter → Bool
still_counts hour c = not (ltb c.hour (hour - 2))

unfoldable pub pruned : ℕ → List Counter → List Counter
pruned hour cs = if ltb 10_000 (length cs) then select (still_counts hour) cs else cs

-- Whether the call passes, and the counters after it.
unfoldable pub check_rate : Rules → String → ℕ → List Counter → Bool × List Counter
unfolding one_more pruned
check_rate rules subject hour counts =
    let counts' = pruned hour (one_more subject hour counts) in
    (leb (calls_of subject hour counts') rules.max_queries_per_hour, counts')
