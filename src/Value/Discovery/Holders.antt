-- ===== src/Value/Discovery/Holders.antt =====
-- Whose items the handlers of items change, and what a query finds out.
use can_framework.Prelude.{
  ℕ, ◌≤◌, ◌≡◌, ◌↔◌, refl, Bool, true, false, none, some, List, [], ◌∷◌, ◌++◌, String, ◌&&◌,
  if◌then◌else◌, arith, Bool-cases, inl, inr,
}
use mathlib.Core.Path.{subst}
use can_framework.Prelude.Outcome.{ok}
use can_framework.Prelude.Table.{length, first, select, adjust, delete}
use can_framework.Prelude.Count.{count}
use can_framework.Accounts.Roles.{Principal, Role, has_any_role}
use can_framework.Value.Records.{Day, MapItem, Rules, MapDb}
use can_framework.Value.Commitments.{
  Commit, Answer, answer_query, check_rate, findable, commits_to, matching_items,
}
use can_framework.Value.Peering.{MapState}
use can_framework.Value.Discovery.{
  MapItemIn, MapItemUpdate, new_item, asset_missing, create_item, held_by, item_with, updated_item,
  not_mine, update_item, delete_item, query, held_by_others, rated_answer,
}

-- The requests of a person about items.
pub data ItemStep (me : ℕ) : MapDb → MapDb → Type 0 where
  created :
      (exists : ℕ → Bool) (today : Day) (payload : MapItemIn) (db : MapDb)
      → ItemStep me db (create_item exists today me payload db).1
  updated :
      (item_id : ℕ) (payload : MapItemUpdate) (db : MapDb)
      → ItemStep me db (update_item item_id me payload db).1
  deleted : (item_id : ℕ) (db : MapDb) → ItemStep me db (delete_item item_id me db).1

-- The items of everybody else.
abbrev pub others : ℕ → MapDb → List MapItem
others me db = select (held_by_others me) db.items

others-append :
    (me : ℕ) (items : List MapItem) (i : MapItem)
    → held_by me i ≡ true
    → select (held_by_others me) (items ++ i ∷ []) ≡ select (held_by_others me) items
others-append me [] i h = ground arith
others-append me (x ∷ items) i h = ground (arith, others-append me items i h)

others-adjust :
    (me id : ℕ) (u : MapItemUpdate) (items : List MapItem)
    → not_mine me (first (item_with id) items) ≡ false
    → select (held_by_others me) (adjust (item_with id) (updated_item u) items)
      ≡ select (held_by_others me) items
others-adjust me id u [] h = refl
others-adjust me id u (x ∷ items) h = ground (arith, others-adjust me id u items)

others-delete :
    (me id : ℕ) (items : List MapItem)
    → not_mine me (first (item_with id) items) ≡ false
    → select (held_by_others me) (delete (item_with id) items) ≡ select (held_by_others me) items
others-delete me id [] h = refl
others-delete me id (x ∷ items) h = ground (arith, others-delete me id items)

-- A person's requests about items leave the items of everybody else as they are and in their order.
pub ItemStep-keeps_others :
    {me : ℕ} {db db' : MapDb} → ItemStep me db db' → others me db' ≡ others me db
unfolding create_item update_item delete_item
ItemStep-keeps_others {me} (created exists today payload db) =
    elim (Bool-cases (asset_missing exists payload.asset_id)) [
      | inl missing ↦ rw missing
      | inr fine ↦
          rw fine (others-append me db.items (new_item db.fresh today me payload) (ground arith))
    ]
ItemStep-keeps_others {me} (updated item_id payload db) =
    elim (Bool-cases (not_mine me (first (item_with item_id) db.items))) [
      | inl refused ↦ rw refused
      | inr mine ↦ rw mine (others-adjust me item_id payload db.items mine)
    ]
ItemStep-keeps_others {me} (deleted item_id db) =
    elim (Bool-cases (not_mine me (first (item_with item_id) db.items))) [
      | inl refused ↦ rw refused
      | inr mine ↦ rw mine (others-delete me item_id db.items mine)
    ]

-- What a query counts: the items whose holders opted in, that are open and have the commitment.
abbrev pub counts_for : Commit → String → MapItem → Bool
counts_for commit target i = findable i && commits_to commit target i

length-matching :
    (commit : Commit) (target : String) (items : List MapItem)
    → length (matching_items commit items target) ≡ count (counts_for commit target) items
unfolding matching_items
length-matching commit target [] = refl
length-matching commit target (i ∷ items) =
    let ih = length-matching commit target items in
    elim (Bool-cases (findable i)) [
      | inr hidden ↦ rw hidden (omega (arith, ih))
      | inl shown ↦ rw shown (elim (Bool-cases (commits_to commit target i)) [
        | inl same ↦ rw same (omega (arith, ih))
        | inr other ↦ rw other (omega (arith, ih))
      ])
    ]

rated_answer-eq :
    (commit : Commit) (rules : Rules) (me : String) (items : List MapItem) (target : String)
    (b : Bool) {a : Answer}
    → rated_answer commit rules me items target b ≡ ok a
    → answer_query commit rules me items target ≡ a
rated_answer-eq commit rules me items target false h = absurd (ground arith)
rated_answer-eq commit rules me items target true h = cc

answer_query_exact :
    (commit : Commit) (rules : Rules) (me : String) (items : List MapItem) (target : String)
    → let a = answer_query commit rules me items target in
      ((a.match ≡ true) ↔ (rules.k_anonymity ≤ count (counts_for commit target) items))
      × (a.node_id ≡ (if a.match then some me else none))
unfolding answer_query
answer_query_exact commit rules me items target =
    let total = length-matching commit target items in
    ((λ e. ground arith, λ e. ground arith), refl)

-- A query that is answered says that there is a match exactly where at least as many items as the threshold
-- of anonymity says are discoverable, open and have the commitment asked for; it names this node where
-- there is a match, and nothing else; and the tables stay as they are.
pub query_exact :
    (commit : Commit) (rules : Rules) (me : String) (who : Principal) (hour : ℕ) (target : String)
    (s : MapState) (a : Answer)
    → (query commit rules me who hour (some target) s).0 ≡ ok a
    → ((a.match ≡ true) ↔ (rules.k_anonymity ≤ count (counts_for commit target) s.db.items))
      × (a.node_id ≡ (if a.match then some me else none))
      × ((query commit rules me who hour (some target) s).1.db ≡ s.db)
unfolding query
query_exact commit rules me who hour target s a h =
    elim (Bool-cases (has_any_role who (Role.user ∷ Role.agent ∷ Role.auditor ∷ []))) [
      | inr stop ↦ absurd (ground arith)
      | inl may ↦
          let same : answer_query commit rules me s.db.items target ≡ a =
            rated_answer-eq commit rules me s.db.items target
              (check_rate rules who.sub hour s.query_counts).0 (ground arith) in
          let exact =
            subst
              (λ (x : Answer).
                ((x.match ≡ true)
                  ↔ (rules.k_anonymity ≤ count (counts_for commit target) s.db.items))
                × (x.node_id ≡ (if x.match then some me else none)))
              same (answer_query_exact commit rules me s.db.items target) in
          (exact.0, exact.1, ground arith)
    ]
