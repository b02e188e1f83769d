-- ===== src/Value/Documents/Arrivals.antt =====
-- `import_document` of backend/app/value/documents.py, and `import_doc` of backend/app/value/routes.py.
use Prim.Native.String.{◌++◌ as concat}
use can_framework.Prelude.{
  ℕ, suc, ◌-◌, Bool, true, false, not, Option, none, some, List, [], ◌∷◌, ◌++◌, String, str_eq,
  if◌then◌else◌,
}
use can_framework.Prelude.Table.{length}
use can_framework.Value.Access.{Asset}
use can_framework.Value.Engine.{Floats, AssetEvidence}
use can_framework.Prelude.Outcome.{Result, ok, err}
use can_framework.Value.Documents.{
  Seals, Document, EvidenceContent, Header, Item, Shown, disclosed, evidence_of,
}
use can_framework.Value.Documents.Reports.{DocReport, verify_document}

module _ (F : Floats) where
  open F use {Float}

  -- What `import_document` answers.
  pub record Import : Type 0 where
    pub asset_id : ℕ
    pub imported_items : ℕ
    pub skipped_items : ℕ
    pub attested : Bool

  abbrev pub entry : String → List (String × String) → String → String
  entry key [] fallback = fallback
  entry key ((k, v) ∷ rest) fallback = if str_eq k key then v else entry key rest fallback

  -- The rows of assets and evidence, and the next id.
  pub record EvidenceDb : Type 0 where
    pub assets : List Asset
    pub evidence : List (AssetEvidence F)
    pub fresh : ℕ

  -- `f"Imported from node {node_id} (document {document_id})"`
  abbrev pub import_note : Header → String
  import_note header =
      concat "Imported from node "
        (concat header.node_id (concat " (document " (concat header.document_id ")")))

  -- `f"node:{node_id}"`, of the node that the header names
  abbrev pub node_text : Header → String
  node_text header = concat "node:" header.node_id

  -- `f"node:{node_id}/doc:{document_id}/item:{item['id']}"`
  abbrev pub item_ref : Header → String → String
  item_ref header id =
      concat "node:"
        (concat header.node_id (concat "/doc:" (concat header.document_id (concat "/item:" id))))

  abbrev pub imported_asset : ℕ → ℕ → Header → Asset
  imported_asset id holder header = record {
    id = id;
    holder_user_id = holder;
    name = entry "name" header.subject "Imported asset";
    kind = entry "kind" header.subject "imported";
    description = some (import_note header);
    currency = entry "currency" header.subject "USD";
  }

  abbrev pub says_nothing : Option Float → Option String → Bool
  says_nothing (some x) text = false
  says_nothing none none = true
  says_nothing none (some t) = str_eq t ""

  -- The evidence in an item, `none` for what is skipped; what is not evidence has no value and no text.
  abbrev pub evidence_in : Shown F → Option (EvidenceContent F)
  evidence_in (disclosed (evidence_of e)) = if says_nothing e.value e.text then none else some e
  evidence_in _ = none

  abbrev pub imported_row : ℕ → ℕ → ℕ → Bool → Header → String → EvidenceContent F → AssetEvidence F
  imported_row id asset_id now trusted header item_id e = record {
    id = id;
    recorded_at = now;
    asset_id = asset_id;
    category = e.category;
    key = e.key;
    value = e.value;
    text = e.text;
    unit = e.unit;
    evidence_ref = some (item_ref header item_id);
    attester_subject = if trusted then some (node_text header) else none;
    self_reported = not trusted;
    superseded_at = none;
  }

  abbrev pub with_row :
      (EvidenceContent F → AssetEvidence F)
      → Option (EvidenceContent F)
      → List (AssetEvidence F)
      → List (AssetEvidence F)
  with_row f none rows = rows
  with_row f (some e) rows = f e ∷ rows

  -- The loop of `import_document`: the rows it adds. `ids` gives their ids, and `id_text` the text of the id
  -- of an item.
  unfoldable pub imported_rows :
      (ℕ → ℕ) → ℕ → ℕ → Bool → Header → (ℕ → String) → List (Item F) → List (AssetEvidence F)
  imported_rows ids asset_id now trusted header id_text [] = []
  imported_rows ids asset_id now trusted header id_text (i ∷ is) =
      with_row (imported_row (ids i.id) asset_id now trusted header (id_text i.id))
        (evidence_in i.shown) (imported_rows ids asset_id now trusted header id_text is)

  -- What an import is given beside the document, with the ids that the tables give to the rows.
  pub record Arrival : Type 0 where
    pub holder_user_id : ℕ
    pub now : ℕ
    pub ids : ℕ → ℕ
    pub id_text : ℕ → String

  unfoldable pub import_document :
      Arrival → Document F → DocReport F → EvidenceDb → Import × EvidenceDb
  unfolding imported_rows
  import_document a doc report db =
      let rows =
        imported_rows a.ids db.fresh a.now report.signer_trusted doc.header a.id_text doc.items in
      (
        record {
          asset_id = db.fresh;
          imported_items = length rows;
          skipped_items = length doc.items - length rows;
          attested = report.signer_trusted;
        },
        record {
          assets = db.assets ++ imported_asset db.fresh a.holder_user_id doc.header ∷ [];
          evidence = db.evidence ++ rows;
          fresh = suc db.fresh;
        },
      )

  abbrev pub import_checked :
      Arrival
      → Document F
      → DocReport F
      → Bool
      → EvidenceDb
      → Result (DocReport F) (DocReport F × Import) × EvidenceDb
  import_checked a doc report false db = (err report, db)
  import_checked a doc report true db =
      let (result, db') = import_document a doc report db in (ok (report, result), db')

  -- `import_doc` of the routes, for the nodes that are trusted; it is refused with the report.
  unfoldable pub import_doc :
      Seals F
      → List (String × String)
      → Arrival
      → Document F
      → EvidenceDb
      → Result (DocReport F) (DocReport F × Import) × EvidenceDb
  import_doc c trusted a doc db =
      let report = verify_document F c trusted doc in import_checked a doc report report.valid db
