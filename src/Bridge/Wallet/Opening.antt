-- ===== src/Bridge/Wallet/Opening.antt =====
-- What `get_or_create_wallet` of backend/app/bridge/service.py leaves in the tables and commits.
use can_framework.Prelude.{ℕ, ◌≡◌, refl, ◌⊎◌, inl, inr, Option, none, some, Option-cases, ==_iff}
use can_framework.Prelude.Table.{first_sound}
use can_framework.Prelude.Outcome.{ok, Session}
use can_framework.Bridge.Records.{Wallet, Db}
use can_framework.Bridge.Wallet.{wallet_of, new_wallet, get_or_create_wallet}

abbrev pub clean : Db → Session Db
clean d = record { committed = d; working = d }

-- The wallet of a user and the tables with it.
abbrev pub open_found : ℕ → Option Wallet → Db → Wallet × Db
open_found user_id (some w) db = (w, db)
open_found user_id none db = new_wallet user_id db

unfoldable pub open_wallet : ℕ → Db → Wallet × Db
open_wallet user_id db = open_found user_id (wallet_of user_id db) db

pub get_or_create-clean :
    (u : ℕ) (d : Db)
    → get_or_create_wallet u (clean d) ≡ (ok (open_wallet u d).0, clean (open_wallet u d).1)
unfolding get_or_create_wallet open_wallet
get_or_create-clean u d = elim (Option-cases (wallet_of u d)) [
  | inl new ↦ rw new
  | inr (w, old) ↦ rw old
]

-- With writes that are not committed yet, a new wallet commits them.
pub get_or_create-dirty :
    (u : ℕ) (c d : Db)
    → (c' : Db) × (get_or_create_wallet u (record { committed = c; working = d })
        ≡ (ok (open_wallet u d).0, record { committed = c'; working = (open_wallet u d).1 }))
      × ((c' ≡ c) ⊎ (c' ≡ (open_wallet u d).1))
unfolding get_or_create_wallet open_wallet
get_or_create-dirty u c d = elim (Option-cases (wallet_of u d)) [
  | inl new ↦ ((new_wallet u d).1, rw new, rw new (inr refl))
  | inr (w, old) ↦ (c, rw old, inl refl)
]

-- Opening a wallet leaves the other tables as they are.
pub record SameBut (a b : Db) : Type 0 where
  pub holdings : a.holdings ≡ b.holdings
  pub pledges : a.pledges ≡ b.pledges
  pub mandates : a.mandates ≡ b.mandates
  pub payments : a.payments ≡ b.payments

open_found-same : (u : ℕ) (o : Option Wallet) (d : Db) → SameBut (open_found u o d).1 d
open_found-same u none d = record {
  holdings = refl;
  pledges = refl;
  mandates = refl;
  payments = refl;
}
open_found-same u (some w) d = record {
  holdings = refl;
  pledges = refl;
  mandates = refl;
  payments = refl;
}

pub open_wallet-same : (u : ℕ) (d : Db) → SameBut (open_wallet u d).1 d
unfolding open_wallet
open_wallet-same u d = open_found-same u (wallet_of u d) d

-- It is a wallet of that user.
pub open_wallet-owner : (u : ℕ) (d : Db) → (open_wallet u d).0.user_id ≡ u
unfolding open_wallet
open_wallet-owner u d = elim (Option-cases (wallet_of u d)) [
  | inl new ↦ rw new refl
  | inr (w, old) ↦ rw old ((==_iff w.user_id u).0 (first_sound _ d.wallets w old))
]
