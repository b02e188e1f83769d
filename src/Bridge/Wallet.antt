-- ===== src/Bridge/Wallet.antt =====
-- The wallet part of backend/app/bridge/service.py: wallets, credits and pledged amounts.
pub mod Credits
pub mod Opening
use can_framework.Prelude.{
  ℕ, ◌+◌, Bool, true, false, Option, none, some, List, [], ◌∷◌, ◌++◌, String, str_eq, ◌==◌, ◌&&◌,
  ◌||◌, if◌then◌else◌,
}
use can_framework.Prelude.Int.{pos, ◌+ℤ◌, ltb_ℤ}
use can_framework.Prelude.Table.{first, adjust, sum_of}
use can_framework.Prelude.Outcome.{Action, pure, or_raise, raise_if, save, gets, ◌>>=◌, ◌>>◌}
use can_framework.Money.{Amount}
use can_framework.Bridge.Records.{
  Layer, holding_layer, Wallet, Terms, Holding, Pledge, PledgeStatus, Db, Error, unknown_kind,
  negative_amount,
}

abbrev pub Request : Type 0 → Type 0
Request = Action Db Error

-- The wallet of a user, made where there is none; committing it commits what was written before.
abbrev pub wallet_of : ℕ → Db → Option Wallet
wallet_of user_id db = first (λ w. w.user_id == user_id) db.wallets

abbrev pub new_wallet : ℕ → Db → Wallet × Db
new_wallet user_id db =
    let w : Wallet = record { id = db.fresh; user_id = user_id } in
    (w, record db { wallets = db.wallets ++ w ∷ []; fresh = db.fresh + 1 })

or_new_wallet : ℕ → Option Wallet → Request Wallet
or_new_wallet user_id (some w) = pure w
or_new_wallet user_id none = save (new_wallet user_id)

unfoldable pub get_or_create_wallet : ℕ → Request Wallet
unfolding or_new_wallet
get_or_create_wallet user_id = do found ← gets (wallet_of user_id); or_new_wallet user_id found

-- What `credit` is told about the value that it credits.
pub record Credit : Type 0 where
  pub kind : String
  pub amount : Amount
  pub currency : Option String
  pub project_id : Option ℕ
  pub description : Option String
  pub terms : Option Terms
  pub evidence_ref : Option String

-- The place in a wallet where fungible value is kept: the filter of the query for `existing`.
pub record Position : Type 0 where
  pub wallet_id : ℕ
  pub kind : String
  pub currency : Option String
  pub project_id : Option ℕ

abbrev pub text_eq? : Option String → Option String → Bool
text_eq? none none = true
text_eq? (some a) (some b) = str_eq a b
text_eq? _ _ = false

abbrev pub id_eq? : Option ℕ → Option ℕ → Bool
id_eq? none none = true
id_eq? (some a) (some b) = a == b
id_eq? _ _ = false

unfoldable pub same_position : Position → Position → Bool
same_position p q =
    p.wallet_id == q.wallet_id
    && (str_eq p.kind q.kind
        && (id_eq? p.project_id q.project_id && text_eq? p.currency q.currency))

abbrev pub position_of : Holding → Position
position_of h = record {
  wallet_id = h.wallet_id;
  kind = h.kind;
  currency = h.currency;
  project_id = h.project_id;
}

abbrev pub position_for : Wallet → Credit → Position
position_for w c = record {
  wallet_id = w.id;
  kind = c.kind;
  currency = c.currency;
  project_id = c.project_id;
}

abbrev pub at_position : Position → Holding → Bool
at_position p h = same_position p (position_of h)

unfoldable pub is_fungible : String → Bool
is_fungible kind =
    str_eq kind "cash"
    || str_eq kind "tokenised_deposit"
    || str_eq kind "offline_value"
    || str_eq kind "participation_unit"

-- Fungible positions merge; rights and claims with their own terms stay separate.
abbrev pub existing : Wallet → Credit → Db → Option Holding
existing w c db =
    if is_fungible c.kind then first (at_position (position_for w c)) db.holdings else none

abbrev pub add_amount : Amount → Holding → Holding
add_amount amount h = record h { amount = h.amount +ℤ amount }

abbrev pub new_holding : Wallet → Credit → Layer → ℕ → Holding
new_holding w c layer id = record {
  id = id;
  wallet_id = w.id;
  layer = layer;
  kind = c.kind;
  amount = c.amount;
  currency = c.currency;
  project_id = c.project_id;
  description = c.description;
  terms = c.terms;
  evidence_ref = c.evidence_ref;
}

unfoldable pub place : Wallet → Credit → Layer → Option Holding → Db → Holding × Db
place w c layer (some h) db = (
  add_amount c.amount h,
  record db {
    holdings = adjust (at_position (position_for w c)) (add_amount c.amount) db.holdings;
  },
)
place w c layer none db =
    let h = new_holding w c layer db.fresh in
    (h, record db { holdings = db.holdings ++ h ∷ []; fresh = db.fresh + 1 })

unfoldable pub credit : Wallet → Credit → Request Holding
credit w c = do
  layer ← or_raise (holding_layer c.kind) unknown_kind
  raise_if (ltb_ℤ c.amount (pos 0)) negative_amount
  save (λ db. place w c layer (existing w c db) db)

-- `func.sum(Pledge.amount)` over the active pledges of a holding; no row counts as 0.
abbrev pub active_amount : ℕ → Pledge → Amount
active_amount holding_id p =
    if p.holding_id == holding_id
    then elim p.status [ PledgeStatus.active ↦ p.amount | PledgeStatus.released ↦ pos 0 ]
    else pos 0

unfoldable pub pledged_amount : ℕ → List Pledge → Amount
pledged_amount holding_id pledges = sum_of (active_amount holding_id) pledges
