-- ===== src/Bridge/Suppliers/Kept.antt =====
-- What the wallet of backend/app/bridge/service.py writes, and what it therefore keeps: a credit writes
-- holdings, and a wallet that is opened writes wallets.
use can_framework.Prelude.{ℕ, inl, inr, Option, none, some, List, Bool-cases, Option-cases}
use can_framework.Prelude.Int.{pos, ltb_ℤ}
use can_framework.Prelude.Handler.Keeps.{Keeps}
use can_framework.Bridge.Records.{Wallet, Holding, Layer, holding_layer, Db}
use can_framework.Bridge.Wallet.{Credit, credit, existing, place, wallet_of, get_or_create_wallet}
use can_framework.Bridge.Suppliers.{act}

module _ (I : Db → Type 0)
    (writes : (d : Db) (rows : List Holding) (n : ℕ)
      → I d
      → I (record d { holdings = rows; fresh = n })) where
  place-Kept :
      (w : Wallet) (c : Credit) (layer : Layer) (o : Option Holding) (d : Db)
      → I d
      → I (place w c layer o d).1
  unfolding place
  place-Kept w c layer none d h = writes d _ _ h
  place-Kept w c layer (some x) d h = writes d _ d.fresh h

  pub credited-Keeps : (w : Wallet) (c : Credit) → Keeps I (act (credit w c))
  unfolding credit
  credited-Keeps w c = record {
    after = λ s h. elim (Option-cases (holding_layer c.kind)) [
      | inl unknown ↦ rw unknown h
      | inr (layer, known) ↦ elim (Bool-cases (ltb_ℤ c.amount (pos 0))) [
        | inl negative ↦ rw (known, negative) h
        | inr fine ↦
            rw (known, fine)
              (let kept = place-Kept w c layer (existing w c s.working) s.working h.1 in
                (kept, kept))
      ]
    ];
  }

module _ (I : Db → Type 0)
    (writes : (d : Db) (rows : List Wallet) (n : ℕ)
      → I d
      → I (record d { wallets = rows; fresh = n })) where
  pub opened-Keeps : (u : ℕ) → Keeps I (act (get_or_create_wallet u))
  unfolding get_or_create_wallet
  opened-Keeps u = record {
    after = λ s h. elim (Option-cases (wallet_of u s.working)) [
      | inl new ↦ rw new (let kept = writes s.working _ _ h.1 in (kept, kept))
      | inr (w, old) ↦ rw old h
    ];
  }
