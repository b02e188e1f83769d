-- ===== src/Value/Documents/Imported.antt =====
-- What a document from another node counts for here: `import_document` of backend/app/value/documents.py with
-- `verify_document` before it and the confidence of backend/app/value/engine.py behind it.
use Prim.Native.String.{◌++◌ as concat}
use can_framework.Prelude.{
  ℕ, ◌+◌, ◌≤◌, ◌<◌, ◌≡◌, refl, ap, sym, ◌∙◌, Bool, true, false, not, Option, none, some, List, [],
  ◌∷◌, ◌++◌, String, ◌==◌, if◌then◌else◌, arith, ◌&&◌, Option-cases, inl, inr, str_eq_iff,
}
use mathlib.Core.Path.{subst}
use can_framework.Prelude.All.{All}
use can_framework.Prelude.Int.{pos}
use can_framework.Prelude.Outcome.{Result, ok, err}
use can_framework.Prelude.Table.{length, select}
use can_framework.Value.Engine.{
  Floats, ValueConfig, AssetEvidence, confidence, gather_inputs, load_value_config,
}
use can_framework.Value.Engine.Confidence.{IsDictionary, AllPositive, confidence_bounds}
use can_framework.Value.Documents.{
  Header, Item, Document, Seals, Signature, EvidenceContent, is_current, current_evidence,
}
use can_framework.Value.Documents.Reports.{
  DocReport, verify_document, signature_ok, is_right, is_trusted, key_of,
}
use can_framework.Value.Documents.Arrivals.{
  evidence_in, imported_row, with_row, imported_rows, Arrival, Import, EvidenceDb, import_document,
  import_checked, import_doc,
}

ok-second :
    {E A B : Type 0} {a a' : A} {b b' : B} {r : Result E (A × B)}
    → r ≡ ok (a, b)
    → r ≡ ok (a', b')
    → b ≡ b'
ok-second h k = ground arith

module _ (F : Floats) where
  -- A row of the new asset, as the trust in the signer has it.
  pub record IsImported (asset_id : ℕ) (trusted : Bool) (header : Header) (e : AssetEvidence F)
      : Type 0 where
    pub of_asset : e.asset_id ≡ asset_id
    pub current : e.superseded_at ≡ none
    pub hearsay : e.self_reported ≡ not trusted
    pub attester :
        e.attester_subject ≡ (if trusted then some (concat "node:" header.node_id) else none)

  with_row-All :
      (P : AssetEvidence F → Type 0) (f : EvidenceContent F → AssetEvidence F)
      (o : Option (EvidenceContent F)) (rows : List (AssetEvidence F))
      → ((e : EvidenceContent F) → P (f e))
      → All P rows
      → All P (with_row F f o rows)
  with_row-All P f none rows h all = all
  with_row-All P f (some e) rows h all = (h e, all)

  imported_rows-IsImported :
      (ids : ℕ → ℕ) (asset_id now : ℕ) (trusted : Bool) (header : Header) (id_text : ℕ → String)
      (is : List (Item F))
      → All
          (IsImported asset_id trusted header)
          (imported_rows F ids asset_id now trusted header id_text is)
  unfolding imported_rows
  imported_rows-IsImported ids asset_id now trusted header id_text [] = tt
  imported_rows-IsImported ids asset_id now trusted header id_text (i ∷ is) =
      with_row-All (IsImported asset_id trusted header)
        (imported_row F (ids i.id) asset_id now trusted header (id_text i.id))
        (evidence_in F i.shown) (imported_rows F ids asset_id now trusted header id_text is)
        (λ e. record { of_asset = refl; current = refl; hearsay = refl; attester = refl })
        (imported_rows-IsImported ids asset_id now trusted header id_text is)

  length-with_row :
      (f : EvidenceContent F → AssetEvidence F) (o : Option (EvidenceContent F))
      (rows : List (AssetEvidence F))
      → length (with_row F f o rows) ≤ length rows + 1
  length-with_row f none rows = omega arith
  length-with_row f (some e) rows = omega arith

  length-imported_rows :
      (ids : ℕ → ℕ) (asset_id now : ℕ) (trusted : Bool) (header : Header) (id_text : ℕ → String)
      (is : List (Item F))
      → length (imported_rows F ids asset_id now trusted header id_text is) ≤ length is
  unfolding imported_rows
  length-imported_rows ids asset_id now trusted header id_text [] = omega arith
  length-imported_rows ids asset_id now trusted header id_text (i ∷ is) =
      let rest = imported_rows F ids asset_id now trusted header id_text is in
      let one =
        length-with_row (imported_row F (ids i.id) asset_id now trusted header (id_text i.id))
          (evidence_in F i.shown) rest in
      omega (arith, one, length-imported_rows ids asset_id now trusted header id_text is)

  -- No evidence is about an asset that is not there yet.
  abbrev pub AllOld : ℕ → List (AssetEvidence F) → Type 0
  AllOld fresh rows = All (λ e. e.asset_id < fresh) rows

  current-old :
      (asset_id : ℕ) (old new : List (AssetEvidence F))
      → AllOld asset_id old
      → select (is_current F asset_id) (old ++ new) ≡ select (is_current F asset_id) new
  current-old asset_id [] new h = refl
  current-old asset_id (e ∷ old) new h =
      let other : (e.asset_id == asset_id) ≡ false = ground (arith, h.0) in
      rw other (current-old asset_id old new h.1)

  select-imported :
      (asset_id : ℕ) (trusted : Bool) (header : Header) (rows : List (AssetEvidence F))
      → All (IsImported asset_id trusted header) rows
      → select (is_current F asset_id) rows ≡ rows
  select-imported asset_id trusted header [] h = refl
  select-imported asset_id trusted header (e ∷ rows) h =
      let kept : is_current F asset_id e ≡ true = rw (h.0.of_asset, h.0.current) (ground arith) in
      rw kept (ap (λ r. e ∷ r) (select-imported asset_id trusted header rows h.1))

  All-hearsay :
      (asset_id : ℕ) (trusted : Bool) (header : Header) (rows : List (AssetEvidence F))
      → trusted ≡ false
      → All (IsImported asset_id trusted header) rows
      → All (λ e. e.self_reported ≡ true) rows
  All-hearsay asset_id trusted header [] doubt h = tt
  All-hearsay asset_id trusted header (e ∷ rows) doubt h =
      (h.0.hearsay ∙ ap not doubt, All-hearsay asset_id trusted header rows doubt h.1)

  -- What an import leaves of a document with this report, beside the evidence there was.
  import_trusts :
      (c : Seals F) (trusted : List (String × String)) (raw cfg : ValueConfig F) (a : Arrival F)
      (doc : Document F) (db : EvidenceDb F)
      → load_value_config F raw ≡ ok cfg
      → IsDictionary F cfg cfg.inputs
      → AllPositive F cfg.inputs
      → AllOld db.fresh db.evidence
      → let report = verify_document F c trusted doc in
        let (result, db') = import_document F a doc report db in
        let evidence = current_evidence F result.asset_id db'.evidence in
        All (IsImported result.asset_id report.signer_trusted doc.header) evidence
        × (length evidence ≡ result.imported_items)
        × (result.imported_items + result.skipped_items ≡ length doc.items)
        × (report.signer_trusted ≡ false → confidence F cfg (gather_inputs F cfg evidence) ≡ pos 0)
        × (db'.evidence ≡ db.evidence ++ evidence)
  unfolding import_document current_evidence
  import_trusts c trusted raw cfg a doc db loads dict positive old =
      let report = verify_document F c trusted doc in
      let rows =
        imported_rows F a.ids db.fresh a.now report.signer_trusted doc.header a.id_text doc.items in
      let fine =
        imported_rows-IsImported a.ids db.fresh a.now report.signer_trusted doc.header a.id_text
          doc.items in
      let mine : select (is_current F db.fresh) (db.evidence ++ rows) ≡ rows =
        current-old db.fresh db.evidence rows old
        ∙ select-imported db.fresh report.signer_trusted doc.header rows fine in
      (
        subst (All (IsImported db.fresh report.signer_trusted doc.header)) (sym mine) fine,
        ap length mine,
        omega (
          arith,
          length-imported_rows a.ids db.fresh a.now report.signer_trusted doc.header a.id_text
              doc.items,
        ),
        λ doubt.
            subst (λ e. confidence F cfg (gather_inputs F cfg e) ≡ pos 0) (sym mine)
              ((confidence_bounds F raw cfg rows loads dict positive).2
                (All-hearsay db.fresh report.signer_trusted doc.header rows doubt fine)),
        ap (λ r. db.evidence ++ r) (sym mine),
      )

  -- The evidence of a new asset counts by the trust in the signer, and every item is accounted for.
  pub record IsTaken (cfg : ValueConfig F) (report : DocReport F) (a : Arrival F) (doc : Document F)
      (before after : EvidenceDb F) (result : Import F) : Type 0 where
    pub rows :
        All
          (IsImported result.asset_id report.signer_trusted doc.header)
          (current_evidence F result.asset_id after.evidence)
    pub imported :
        length (current_evidence F result.asset_id after.evidence) ≡ result.imported_items
    pub accounted : result.imported_items + result.skipped_items ≡ length doc.items
    pub doubted :
        report.signer_trusted ≡ false
        → confidence F cfg (gather_inputs F cfg (current_evidence F result.asset_id after.evidence))
          ≡ pos 0
    pub kept : after.evidence ≡ before.evidence ++ current_evidence F result.asset_id after.evidence

  import_checked_lem :
      (c : Seals F) (trusted : List (String × String)) (raw cfg : ValueConfig F) (a : Arrival F)
      (doc : Document F) (db : EvidenceDb F) (b : Bool) (result : Import F)
      → load_value_config F raw ≡ ok cfg
      → IsDictionary F cfg cfg.inputs
      → AllPositive F cfg.inputs
      → AllOld db.fresh db.evidence
      → let report = verify_document F c trusted doc in
        let answer = import_checked F a doc report b db in
        answer.0 ≡ ok (report, result) → IsTaken cfg report a doc db answer.1 result
  import_checked_lem c trusted raw cfg a doc db false result loads dict positive old h =
      absurd (ground arith)
  import_checked_lem c trusted raw cfg a doc db true result loads dict positive old h =
      let report = verify_document F c trusted doc in
      let (rows, imported, accounted, doubted, kept) =
        import_trusts c trusted raw cfg a doc db loads dict positive old in
      let same : (import_document F a doc report db).0 ≡ result = ok-second refl h in
      subst (IsTaken cfg report a doc db (import_document F a doc report db).1) same (record {
        rows = rows;
        imported = imported;
        accounted = accounted;
        doubted = doubted;
        kept = kept;
      })

  signature_trusted :
      (c : Seals F) (trusted : List (String × String)) (root : String) (o : Option (Signature F))
      → (is_right F (signature_ok F c root o) && is_trusted F trusted o) ≡ true
      → (s : Signature F) × (o ≡ some s)
        × (c.verifies s.public_key root s.value ≡ true)
        × (key_of F s.node_id trusted ≡ some s.public_key)
  signature_trusted c trusted root none e = absurd (ground arith)
  signature_trusted c trusted root (some s) e = elim (Option-cases (key_of F s.node_id trusted)) [
    | inl unknown ↦ absurd (ground arith)
    | inr (k, known) ↦
        let same : k ≡ s.public_key = ground (arith, str_eq_iff k s.public_key) in
        (s, refl, ground arith, known ∙ ap some same)
  ]

  -- A document that does not verify is refused with the report and changes nothing. The evidence that one
  -- which is imported gives to the new asset is attested if and only if the signer is trusted, that is, only
  -- if the document carries a signature that verifies with the key on file for the node in it. It is then
  -- attested in the name of the node that the header names, which need not be the one that signed. Where the
  -- signer is not trusted, the evidence names no attester and the confidence in the new asset is 0. What is
  -- imported and skipped are all items of the document, and the evidence there was is as it was.
  pub import_doc_trusts :
      (c : Seals F) (trusted : List (String × String)) (raw cfg : ValueConfig F) (a : Arrival F)
      (doc : Document F) (db : EvidenceDb F)
      → load_value_config F raw ≡ ok cfg
      → IsDictionary F cfg cfg.inputs
      → AllPositive F cfg.inputs
      → AllOld db.fresh db.evidence
      → let report = verify_document F c trusted doc in
        let answer = import_doc F c trusted a doc db in
        (report.valid ≡ false → answer ≡ (err report, db))
        × (report.signer_trusted ≡ true
            → (s : Signature F) × (doc.signature ≡ some s)
              × (c.verifies s.public_key doc.root s.value ≡ true)
              × (key_of F s.node_id trusted ≡ some s.public_key))
        × ((result : Import F)
            → answer.0 ≡ ok (report, result)
            → IsTaken cfg report a doc db answer.1 result)
  unfolding import_doc verify_document
  import_doc_trusts c trusted raw cfg a doc db loads dict positive old =
      let report = verify_document F c trusted doc in
      (
        λ bad. ap (λ b. import_checked F a doc report b db) bad,
        signature_trusted c trusted doc.root doc.signature,
        λ result h.
            import_checked_lem c trusted raw cfg a doc db report.valid result loads dict positive
              old h,
      )
