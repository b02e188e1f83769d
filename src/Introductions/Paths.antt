-- ===== src/Introductions/Paths.antt =====
-- The paths and the routes of backend/app/value/introductions.py.
use Prim.Native.String.{◌++◌ as concat}
use can_framework.Prelude.{
  ℕ, zero, suc, ◌+◌, Bool, true, false, not, Option, none, some, List, [], ◌∷◌, String, str_eq,
  ◌==◌, ◌||◌, ◌&&◌, ltb, if◌then◌else◌,
}
use can_framework.Prelude.Table.{length, get_elem?}
use can_framework.Introductions.Records.{
  Status, Role, Route, Introduction, Error, short_path, wrong_start, visits_twice,
}

abbrev pub same_text? : Option String → Option String → Bool
same_text? none none = true
same_text? (some a) (some b) = str_eq a b
same_text? _ _ = false

-- A text that is there and not empty.
abbrev pub truthy : Option String → Option String
truthy none = none
truthy (some s) = if str_eq s "" then none else some s

abbrev pub is_pending : Status → Bool
is_pending Status.pending = true
is_pending _ = false

abbrev pub is_forwarded : Status → Bool
is_forwarded Status.forwarded = true
is_forwarded _ = false

abbrev pub is_accepted : Status → Bool
is_accepted Status.accepted = true
is_accepted _ = false

abbrev pub is_declined : Status → Bool
is_declined Status.declined = true
is_declined _ = false

abbrev pub is_origin : Role → Bool
is_origin Role.origin = true
is_origin _ = false

abbrev pub is_relay : Role → Bool
is_relay Role.relay = true
is_relay _ = false

abbrev pub is_destination : Role → Bool
is_destination Role.destination = true
is_destination _ = false

abbrev pub is_open : Status → Bool
is_open s = is_pending s || is_forwarded s

unfoldable pub is_expired : ℕ → Introduction → Bool
is_expired now i = is_open i.status && ltb i.expires_at now

unfoldable pub role_for : List String → ℕ → Role
role_for path zero = Role.origin
role_for path (suc hop) = if suc (suc hop) == length path then Role.destination else Role.relay

abbrev pub next_hop : Introduction → Option String
next_hop i = get_elem? i.path (i.hop_index + 1)

abbrev pub previous_hop_of : List String → ℕ → Option String
previous_hop_of path zero = none
previous_hop_of path (suc hop) = get_elem? path hop

abbrev pub previous_hop : Introduction → Option String
previous_hop i = previous_hop_of i.path i.hop_index

unfoldable pub visits : String → List String → Bool
visits node [] = false
visits node (n ∷ ns) = str_eq node n || visits node ns

unfoldable pub has_repeat : List String → Bool
has_repeat [] = false
has_repeat (n ∷ ns) = visits n ns || has_repeat ns

abbrev pub starts_at : String → List String → Bool
starts_at node path = same_text? (get_elem? path 0) (some node)

-- `validate_path`: why a path is refused.
unfoldable pub validate_path : String → List String → Option Error
validate_path node path =
    if ltb (length path) 2
    then some short_path
    else if not (starts_at node path)
    then some wrong_start
    else if has_repeat path
    then some visits_twice
    else none

unfoldable pub same_path : List String → List String → Bool
same_path [] [] = true
same_path (a ∷ p) (b ∷ q) = str_eq a b && same_path p q
same_path _ _ = false

unfoldable pub any_path : List String → List (List String) → Bool
any_path p [] = false
any_path p (q ∷ qs) = same_path p q || any_path p qs

unfoldable pub repeats_path : List (List String) → Bool
repeats_path [] = false
repeats_path (p ∷ ps) = any_path p ps || repeats_path ps

unfoldable pub any_status : (Status → Bool) → List Route → Bool
any_status test [] = false
any_status test (r ∷ rs) = test r.status || any_status test rs

-- One offer, several routes: it is alive while any route is.
unfoldable pub route_status : List Route → Status
route_status routes =
    if any_status is_accepted routes
    then Status.accepted
    else if any_status is_forwarded routes
    then Status.forwarded
    else Status.declined

joined : Option String → Option String → Option String
joined none rest = rest
joined (some b) none = some b
joined (some b) (some rest) = some (concat b (concat ", " rest))

-- The names in `", ".join(r["blocked_by"] for r in routes if r["blocked_by"])`; `none` where there is
-- no name to join.
blockers : List Route → Option String
unfolding joined
blockers [] = none
blockers (r ∷ rs) = joined (truthy r.blocked_by) (blockers rs)

unfoldable pub blocked_by_all : List Route → String
unfolding blockers
blocked_by_all routes = elim (blockers routes) [ none ↦ "" | some names ↦ names ]
