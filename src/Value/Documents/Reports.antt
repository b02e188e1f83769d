-- ===== src/Value/Documents/Reports.antt =====
-- `verify_document` of backend/app/value/documents.py.
use can_framework.Prelude.{
  ℕ, ◌+◌, Bool, true, false, not, Option, none, some, List, [], ◌∷◌, ◌++◌, String, str_eq, ◌==◌,
  ◌&&◌, if◌then◌else◌,
}
use can_framework.Value.Engine.{Floats}
use can_framework.Value.Documents.{
  Document, Item, Seals, Shown, Signature, disclosed, document_root, is_known, withheld,
}

module _ (F : Floats) where
  -- The problems of a report, and the report.
  pub data DocProblem : Type 0 where
    unknown_profile bad_root bad_signature : DocProblem
    bad_items : ℕ → DocProblem

  pub record DocReport : Type 0 where
    pub valid : Bool
    pub root_matches : Bool
    pub disclosed_items : ℕ
    pub withheld_items : ℕ
    pub signed : Bool
    pub signature_valid : Option Bool
    pub signer_node : Option String
    pub signer_trusted : Bool
    pub problems : List DocProblem

  abbrev pub is_withheld : Shown F → Bool
  is_withheld withheld = true
  is_withheld (disclosed content) = false

  -- A disclosed item whose content does not have its hash.
  abbrev pub is_bad : Seals F → Item F → Bool
  is_bad c i = elim i.shown [
    | withheld ↦ false
    | disclosed content ↦ not (str_eq (c.sha_item i.salt content) i.hash)
  ]

  abbrev pub count_bad : Seals F → List (Item F) → ℕ
  count_bad c [] = 0
  count_bad c (i ∷ is) = (if is_bad c i then 1 else 0) + count_bad c is

  abbrev pub count_withheld : List (Item F) → ℕ
  count_withheld [] = 0
  count_withheld (i ∷ is) = (if is_withheld i.shown then 1 else 0) + count_withheld is

  abbrev pub count_disclosed : List (Item F) → ℕ
  count_disclosed [] = 0
  count_disclosed (i ∷ is) = (if is_withheld i.shown then 0 else 1) + count_disclosed is

  abbrev pub root_ok : Seals F → Document F → Bool
  root_ok c doc = str_eq (document_root F c doc) doc.root

  abbrev pub signature_ok : Seals F → String → Option (Signature F) → Option Bool
  signature_ok c root none = none
  signature_ok c root (some s) = some (c.verifies s.public_key root s.value)

  abbrev pub problem_if : Bool → DocProblem → List DocProblem
  problem_if true p = p ∷ []
  problem_if false p = []

  abbrev pub is_wrong : Option Bool → Bool
  is_wrong (some false) = true
  is_wrong _ = false

  abbrev pub is_right : Option Bool → Bool
  is_right (some true) = true
  is_right _ = false

  abbrev pub is_some : Option (Signature F) → Bool
  is_some none = false
  is_some (some s) = true

  -- `trusted_nodes.get(signer) == public_key`
  abbrev pub key_of : String → List (String × String) → Option String
  key_of node_id [] = none
  key_of node_id ((n, k) ∷ rest) = if str_eq n node_id then some k else key_of node_id rest

  abbrev pub is_trusted : List (String × String) → Option (Signature F) → Bool
  is_trusted trusted none = false
  is_trusted trusted (some s) = elim (key_of s.node_id trusted) [
    | none ↦ false
    | some k ↦ str_eq k s.public_key
  ]

  abbrev pub doc_problems : Seals F → Document F → List DocProblem
  doc_problems c doc =
      problem_if (not (is_known doc.header.profile)) unknown_profile
      ++ (problem_if (not (count_bad c doc.items == 0)) (bad_items (count_bad c doc.items))
          ++ (problem_if (not (root_ok c doc)) bad_root
              ++ problem_if (is_wrong (signature_ok c doc.root doc.signature)) bad_signature))

  abbrev pub none_left : List DocProblem → Bool
  none_left [] = true
  none_left (p ∷ ps) = false

  abbrev pub signer_of : Option (Signature F) → Option String
  signer_of none = none
  signer_of (some s) = some s.node_id

  unfoldable pub verify_document : Seals F → List (String × String) → Document F → DocReport
  unfolding document_root
  verify_document c trusted doc = record {
    valid = none_left (doc_problems c doc);
    root_matches = root_ok c doc;
    disclosed_items = count_disclosed doc.items;
    withheld_items = count_withheld doc.items;
    signed = is_some doc.signature;
    signature_valid = signature_ok c doc.root doc.signature;
    signer_node = signer_of doc.signature;
    signer_trusted =
        is_right (signature_ok c doc.root doc.signature) && is_trusted trusted doc.signature;
    problems = doc_problems c doc;
  }
