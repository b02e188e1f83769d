-- ===== src/Agents/Admission.antt =====
-- What `record_derived` of backend/app/agents/service.py admits.
use can_framework.Prelude.{
  ◌≤◌, ◌<◌, ◌≡◌, ◌⊎◌, inl, inr, refl, true, Option, none, some, [], ◌∷◌, ◌++◌, ◌+◌, zero, suc,
  arith,
}
use can_framework.Prelude.Text
use can_framework.Prelude.Count.{count}
use can_framework.Prelude.Outcome.{ok, err, request}
use can_framework.Agents.Records.{
  Agent, AgentStatus, RecordStatus, RecomputeStatus, DerivedRecord, Db, Rules, Error,
  scopes_for_kind,
}
use can_framework.Agents.Queue.{
  Draft, is_active, mem_text, shares_scope, recent_by, ceiling_for, unreviewed_count,
  steward_unreviewed_count, check_record, new_record, record_checked, record_derived,
}

-- Every limit on an agent's writing; the limit on its queue is its own, if it has one that is not 0.
pub record Admissible (rules : Rules) (a : Agent) (draft : Draft) (db : Db) : Type 0 where
  pub active : a.status ≡ AgentStatus.active
  pub kind : mem_text draft.kind rules.record_kinds ≡ true
  pub scope : shares_scope (scopes_for_kind draft.kind) a.scopes ≡ true
  pub size : Text.length draft.inputs ≤ rules.max_input_bytes
  pub rate : count (recent_by rules a.id) db.records < rules.max_records_per_hour
  pub room : unreviewed_count a.id db < elim a.max_unreviewed [
    | none ↦ rules.max_unreviewed_records
    | some zero ↦ rules.max_unreviewed_records
    | some (suc own) ↦ suc own
  ]
  pub steward_room :
      steward_unreviewed_count a.steward_user_id db < rules.max_unreviewed_per_steward

module _ (rules : Rules) (a : Agent) (draft : Draft) (db : Db) where
  is_active_sound : (s : AgentStatus) → is_active s ≡ true → s ≡ AgentStatus.active
  is_active_sound s e = ground arith

  check_record_sound : check_record rules a draft db ≡ none → Admissible rules a draft db
  unfolding check_record ceiling_for
  check_record_sound e = record {
    active = ground arith;
    kind = ground arith;
    scope = ground arith;
    size = ground arith;
    rate = ground arith;
    room = ground arith;
    steward_room = ground arith;
  }

  check_record_complete : Admissible rules a draft db → check_record rules a draft db ≡ none
  unfolding check_record ceiling_for
  check_record_complete p = ground arith

  record_checked_ends :
      (o : Option Error)
      → ((o ≡ none)
          × (request (record_checked rules a draft o) db
              ≡ (ok (new_record rules a draft db).0, (new_record rules a draft db).1)))
        ⊎ ((e : Error) × (o ≡ some e) × (request (record_checked rules a draft o) db ≡ (err e, db)))
  record_checked_ends none = inl (refl, refl)
  record_checked_ends (some e) = inr (e, refl, refl)

  -- A record is written exactly when every limit on the agent leaves room for it. It holds the draft
  -- as it was sent with the hashes of its inputs and output, is unreviewed and not recomputed, stands
  -- in one new row after the others, and no other table changes. Else the request raises and changes
  -- nothing.
  pub record_derived_exact :
      let r : DerivedRecord = record {
        id = db.fresh;
        created_at = rules.now;
        agent_id = a.id;
        derivation = record {
          kind = draft.kind;
          subject_ref = draft.subject_ref;
          statement = draft.statement;
          inputs = draft.inputs;
          inputs_hash = rules.canonical_hash draft.inputs;
          output = draft.output;
          output_hash = rules.canonical_hash draft.output;
          method = draft.method;
          confidence = draft.confidence;
        };
        status = RecordStatus.unreviewed;
        recompute_status = RecomputeStatus.unchecked;
        reviewed_by = none;
        reviewed_at = none;
        review_note = none;
      } in
      (Admissible rules a draft db
        × (request (record_derived rules a draft) db
            ≡ (ok r, record db { records = db.records ++ r ∷ []; fresh = db.fresh + 1 })))
      ⊎ (¬ Admissible rules a draft db
          × ((e : Error) × (request (record_derived rules a draft) db ≡ (err e, db))))
  unfolding record_derived
  record_derived_exact = elim (record_checked_ends (check_record rules a draft db)) [
    | inl (clear, done) ↦ inl (check_record_sound clear, done)
    | inr (e, why, raised) ↦ inr ((λ p. cc (why, check_record_complete p)), (e, raised))
  ]
