-- ===== src/Bridge/Handlers/Sponsor.antt =====
-- What only the sponsor of a project may do, in backend/app/bridge/routes.py.
use can_framework.Prelude.{ℕ, ◌≡◌, refl, sym, ap, ◌∙◌, false, not, some, List, ◌==◌}
use can_framework.Prelude.Table.{first}
use can_framework.Prelude.Handler.{request, gets, ◌>>=◌}
use can_framework.Prelude.Handler.Keeps.{Keeps, Keeps-gets, Keeps-found, Keeps-guard, Keeps-request}
use can_framework.Bridge.Records.{Project, ProjectStatus, Contribution, Db}
use can_framework.Bridge.Funding.{Decision, contribution_with}
use can_framework.Bridge.Handlers.{
  not_found, Reply, project_with, project_or_404, sponsor_only, set_status, AgreementCreate,
  add_supplier, decide,
}

module _ (I : Db → Type 0) where
  -- Past the lookup of a project, it is the row with that id.
  Keeps-project :
      {B : Type 0} (id : ℕ) (k : Project → Reply B)
      → ((d : Db)
          → I d
          → (p : Project) → first (project_with id) d.projects ≡ some p
          → Keeps I (k p))
      → Keeps I (project_or_404 id >>= k)
  unfolding project_or_404 gets ◌>>=◌
  Keeps-project id k f = record {
    after = λ s h.
        (Keeps-found (first (project_with id) s.working.projects) not_found k
            (f s.working h.1)).after
          s h;
  }

module _ (p : Project) (me : ℕ) (db : Db) (other : (p.sponsor_user_id == me) ≡ false)
    (here : first (project_with p.id) db.projects ≡ some p) where
  abbrev Unchanged : Db → Type 0
  Unchanged d = d ≡ db

  same_project :
      (d : Db) → Unchanged d → (q : Project) → first (project_with p.id) d.projects ≡ some q → p ≡ q
  same_project d e q there =
      let found : some p ≡ some q =
        sym here ∙ ap (λ x. first (project_with p.id) x.projects) (sym e) ∙ there in
      cc

  refused :
      (d : Db)
      → Unchanged d
      → (q : Project) → first (project_with p.id) d.projects ≡ some q
      → not (q.sponsor_user_id == me) ≡ false
      → ⊥
  refused d e q there pass =
      let sponsor : (q.sponsor_user_id == me) ≡ false =
        ap (λ x. x.sponsor_user_id == me) (sym (same_project d e q there)) ∙ other in
      cc (pass, sponsor)

  set_status-Keeps : (status : ProjectStatus) → Keeps Unchanged (set_status p.id status me)
  unfolding set_status sponsor_only
  set_status-Keeps status =
      Keeps-project Unchanged p.id _
        (λ d e q there. Keeps-guard _ _ _ (λ pass. absurd (refused d e q there pass)))

  add_supplier-Keeps :
      (users : List ℕ) (b : AgreementCreate) → Keeps Unchanged (add_supplier users p.id b me)
  unfolding add_supplier sponsor_only
  add_supplier-Keeps users b =
      Keeps-project Unchanged p.id _
        (λ d e q there. Keeps-guard _ _ _ (λ pass. absurd (refused d e q there pass)))

  module _ (c : Contribution) (stored : first (contribution_with c.id) db.contributions ≡ some c)
      (its : c.project_id ≡ p.id) where
    same_contribution :
        (d : Db)
        → Unchanged d
        → (x : Contribution) → first (contribution_with c.id) d.contributions ≡ some x
        → x.project_id ≡ p.id
    same_contribution d e x there =
        let found : some c ≡ some x =
          sym stored ∙ ap (λ y. first (contribution_with c.id) y.contributions) (sym e) ∙ there in
        let same : c ≡ x = cc in ap (λ y. y.project_id) (sym same) ∙ its

    decide-Keeps : (d : Decision) (now : ℕ) → Keeps Unchanged (decide c.id d me now)
    unfolding decide sponsor_only
    decide-Keeps d now = Keeps-gets _ _ (λ db' e. Keeps-found _ _ _ (λ x there.
        Keeps-project Unchanged x.project_id _ (λ db'' e' q at. Keeps-guard _ _ _ (λ pass. absurd (
          refused db'' e' q
            (ap (λ k. first (project_with k) db''.projects) (sym (same_contribution db' e x there))
              ∙ at)
            pass)))))

  -- Someone who is not the sponsor of a stored project changes nothing by a request to set its status, to
  -- add a supplier to it, or to decide on a stored contribution to it.
  pub only_sponsor :
      (status : ProjectStatus) (users : List ℕ) (b : AgreementCreate) (c : Contribution)
      (d : Decision) (now : ℕ)
      → first (contribution_with c.id) db.contributions ≡ some c
      → c.project_id ≡ p.id
      → ((request (set_status p.id status me) db).1 ≡ db)
        × ((request (add_supplier users p.id b me) db).1 ≡ db)
        × ((request (decide c.id d me now) db).1 ≡ db)
  only_sponsor status users b c d now stored its = (
    Keeps-request (set_status-Keeps status) db refl,
    Keeps-request (add_supplier-Keeps users b) db refl,
    Keeps-request (decide-Keeps c stored its d now) db refl,
  )
