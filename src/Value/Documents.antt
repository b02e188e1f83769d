-- ===== src/Value/Documents.antt =====
-- backend/app/value/documents.py: documents that one node hands to another. The hashes of an item and of a
-- document and the signature of a root are parameters; a received object with a key left out is read as
-- one with that key null or empty, and a withheld item without its content.
pub mod Reports
pub mod Arrivals
pub mod Checked
pub mod Imported
use can_framework.Prelude.{
  ℕ, zero, suc, ◌+◌, ◌-◌, Bool, true, false, not, Option, none, some, List, [], ◌∷◌, ◌++◌, String,
  str_eq, ◌==◌, ◌&&◌, ◌||◌, if◌then◌else◌,
}
use can_framework.Prelude.Table.{length, select}
use can_framework.Money.{Amount}
use can_framework.Value.Records.{ItemType, MapItem}
use can_framework.Value.Proofs.{Node}
use can_framework.Value.Access.{Asset, Access, may_see_category, may_see_valuation, has_text}
use can_framework.Value.Engine.{
  Floats, ValueConfig, AssetEvidence, Input, gather_inputs, is_attested, is_missing,
}
use can_framework.Value.Engine.Scenarios.{
  Worth, ScenarioWorth, Valuation, valuate, incomplete, complete,
}

pub data Profile : Type 0 where
  value map agreement transaction : Profile
  other : String → Profile

abbrev pub is_known : Profile → Bool
is_known (Profile.other p) = false
is_known _ = true

-- The header: what a document is about is its subject, as a text.
pub record Header : Type 0 where
  pub profile : Profile
  pub document_id : String
  pub issued_at : ℕ
  pub node_id : String
  pub subject : List (String × String)
  pub disclosed : Option (List String)

module _ (F : Floats) where
  open F use {Float}

  -- What an item says: a piece of evidence, an item of a map, or an asset of a map.
  pub record EvidenceContent : Type 0 where
    pub category : String
    pub key : String
    pub value : Option Float
    pub unit : Option String
    pub text : Option String
    pub evidence_ref : Option String
    pub recorded_at : ℕ
    pub attested : Bool
    pub attester : Option String

  pub record AssetContent : Type 0 where
    pub name : String
    pub kind : String
    pub currency : String
    pub evidence_categories : List String
    pub attested_inputs : List String

  pub data Content : Type 0 where
    evidence_of : EvidenceContent → Content
    map_item_of : MapItem → Content
    asset_of : AssetContent → Content

  pub data Shown : Type 0 where
    withheld : Shown
    disclosed : Content → Shown

  pub record Item : Type 0 where
    pub id : ℕ
    pub salt : String
    pub hash : String
    pub shown : Shown

  -- The statement of a valuation.
  pub record Statement : Type 0 where
    pub is_complete : Bool
    pub confidence : Amount
    pub base : Option (Worth F)
    pub scenarios : List (ScenarioWorth F)

  pub record Signature : Type 0 where
    pub node_id : String
    pub public_key : String
    pub value : String

  -- The sections that are not header, items, root or signature are the body.
  pub record Document : Type 0 where
    pub header : Header
    pub items : List Item
    pub body : Option Statement
    pub root : String
    pub signature : Option Signature

  -- SHA-256 over the canonical JSON of an item and of header, hashes and body; the signature of a root.
  pub record Seals : Type 0 where
    pub sha_item : String → Content → String
    pub sha_root : Header → List String → Option Statement → String
    pub public_key : String → String
    pub sign : String → String → String
    pub verifies : String → String → String → Bool

  abbrev pub content_of : AssetEvidence F → EvidenceContent
  content_of e = record {
    category = e.category;
    key = e.key;
    value = e.value;
    unit = e.unit;
    text = e.text;
    evidence_ref = e.evidence_ref;
    recorded_at = e.recorded_at;
    attested = not e.self_reported;
    attester = if e.self_reported then none else e.attester_subject;
  }

  -- One item: its content and a salted hash, or the hash alone.
  unfoldable pub hashed_item : Seals → String → ℕ → Content → Bool → Item
  hashed_item c salt id content disclose = record {
    id = id;
    salt = salt;
    hash = c.sha_item salt content;
    shown = if disclose then disclosed content else withheld;
  }

  abbrev pub hashes : List Item → List String
  hashes [] = []
  hashes (i ∷ is) = i.hash ∷ hashes is

  unfoldable pub document_root : Seals → Document → String
  document_root c doc = c.sha_root doc.header (hashes doc.items) doc.body

  -- `current_evidence`, in the order in which it was recorded.
  abbrev pub is_current : ℕ → AssetEvidence F → Bool
  is_current asset_id e =
      e.asset_id == asset_id && elim e.superseded_at [ none ↦ true | some t ↦ false ]

  unfoldable pub current_evidence : ℕ → List (AssetEvidence F) → List (AssetEvidence F)
  current_evidence asset_id rows = select (is_current asset_id) rows

  abbrev pub visible_in : Access → AssetEvidence F → Bool
  visible_in access e = may_see_category access e.category

  abbrev pub is_disclosed : Option (List String) → String → Bool
  is_disclosed none category = true
  is_disclosed (some categories) category = has_text category categories

  -- The loop over the evidence; the salts are the random ones.
  unfoldable pub evidence_items :
      Seals → (ℕ → String) → Option (List String) → List (AssetEvidence F) → List Item
  unfolding hashed_item
  evidence_items c salts disclose [] = []
  evidence_items c salts disclose (e ∷ es) =
      hashed_item c (salts e.id) e.id (evidence_of (content_of e))
        (is_disclosed disclose e.category)
      ∷ evidence_items c salts disclose es

  abbrev pub statement_of : Valuation F → Statement
  statement_of (incomplete missing confidence inputs) = record {
    is_complete = false;
    confidence = confidence;
    base = none;
    scenarios = [];
  }
  statement_of (complete confidence inputs base scenarios) = record {
    is_complete = true;
    confidence = confidence;
    base = some base;
    scenarios = scenarios;
  }

  abbrev pub signature_of : Seals → Node → String → Option Signature
  signature_of c node root = elim node.signing_key [
    | none ↦ none
    | some key ↦
        some (record {
          node_id = node.node_id;
          public_key = c.public_key key;
          value = c.sign key root;
        })
  ]

  -- The end of both builders: the root, and a signature where there is a key.
  unfoldable pub sealed : Seals → Node → Header → List Item → Option Statement → Document
  sealed c node header items body =
      let root = c.sha_root header (hashes items) body in
      record {
        header = header;
        items = items;
        body = body;
        root = root;
        signature = signature_of c node root;
      }

  -- What a builder is given beside the rows.
  pub record Issue : Type 0 where
    pub document_id : String
    pub issued_at : ℕ
    pub salts : ℕ → String

  abbrev pub asset_subject : Asset → List (String × String)
  asset_subject a = ("name", a.name) ∷ ("kind", a.kind) ∷ ("currency", a.currency) ∷ []

  -- `sorted(disclose) if disclose else "all"`: an empty choice reads as all of them.
  abbrev pub disclosed_of : Option (List String) → Option (List String)
  disclosed_of (some (x ∷ xs)) = some (x ∷ xs)
  disclosed_of _ = none

  abbrev pub header_of :
      Profile → Node → Issue → List (String × String) → Option (List String) → Header
  header_of profile node issue subject disclose = record {
    profile = profile;
    document_id = issue.document_id;
    issued_at = issue.issued_at;
    node_id = node.node_id;
    subject = subject;
    disclosed = disclosed_of disclose;
  }

  -- The valuation, where it is wanted and may be seen; `none` outside where `valuate` raises.
  abbrev pub valuation_section :
      ValueConfig F → Access → Bool → List (AssetEvidence F) → Option (Option Statement)
  valuation_section cfg access include evidence =
      if include && may_see_valuation access
      then elim (valuate F cfg (gather_inputs F cfg evidence)) [
        | none ↦ none
        | some v ↦ some (some (statement_of v))
      ]
      else some none

  unfoldable pub build_document :
      Seals
      → Node
      → ValueConfig F
      → Issue
      → List (AssetEvidence F)
      → Asset
      → Access
      → Option (List String)
      → Bool
      → Option Document
  unfolding evidence_items sealed
  build_document c node cfg issue rows asset access disclose include =
      let evidence = current_evidence asset.id rows in
      elim (valuation_section cfg access include evidence) [
        | none ↦ none
        | some body ↦ some (
            sealed c node (header_of Profile.value node issue (asset_subject asset) disclose)
              (evidence_items c issue.salts disclose (select (visible_in access) evidence)) body)
      ]

  abbrev pub item_kind : ItemType → String
  item_kind ItemType.capacity = "capacity"
  item_kind ItemType.need = "need"

  unfoldable pub map_items : Seals → (ℕ → String) → Option (List String) → List MapItem → List Item
  unfolding hashed_item
  map_items c salts include [] = []
  map_items c salts include (i ∷ is) =
      hashed_item c (salts i.id) i.id (map_item_of i) (is_disclosed include (item_kind i.item_type))
      ∷ map_items c salts include is

  -- The texts of inputs in order; `sorted` and the set before it are left to the hash.
  abbrev pub categories_of : List (Input F) → List String
  categories_of [] = []
  categories_of (i ∷ is) =
      if is_missing F i.status then categories_of is else i.category ∷ categories_of is

  abbrev pub attested_keys : List (Input F) → List String
  attested_keys [] = []
  attested_keys (i ∷ is) =
      if is_attested F i.status then i.key ∷ attested_keys is else attested_keys is

  abbrev pub asset_content : ValueConfig F → List (AssetEvidence F) → Asset → AssetContent
  asset_content cfg rows a = record {
    name = a.name;
    kind = a.kind;
    currency = a.currency;
    evidence_categories = categories_of (gather_inputs F cfg (current_evidence a.id rows));
    attested_inputs = attested_keys (gather_inputs F cfg (current_evidence a.id rows));
  }

  unfoldable pub asset_items :
      Seals
      → ValueConfig F
      → List (AssetEvidence F)
      → (ℕ → String)
      → Option (List String)
      → List Asset
      → List Item
  unfolding hashed_item
  asset_items c cfg rows salts include [] = []
  asset_items c cfg rows salts include (a ∷ rest) =
      hashed_item c (salts a.id) a.id (asset_of (asset_content cfg rows a))
        (is_disclosed include "asset")
      ∷ asset_items c cfg rows salts include rest

  unfoldable pub build_map_slice :
      Seals
      → Node
      → ValueConfig F
      → Issue
      → List (AssetEvidence F)
      → List (String × String)
      → List MapItem
      → List Asset
      → Option (List String)
      → Document
  unfolding map_items asset_items sealed
  build_map_slice c node cfg issue rows subject items assets include =
      sealed c node (header_of Profile.map node issue subject include)
        (map_items c issue.salts include items ++ asset_items c cfg rows issue.salts include assets)
        none
