-- ===== src/Tests/Value/Documents.antt =====
-- A valuation and its documents, with whole numbers for floats and one hash for all.
use can_framework.Prelude.{
  ◌≡◌, refl, true, false, none, some, List, [], ◌∷◌, String, str_eq, str_eq_iff, arith, ◌&&◌,
  if◌then◌else◌,
}
use mathlib.Core.Path.{subst}
use can_framework.Prelude.All.{All}
use can_framework.Prelude.Int.{ℤ, pos, ◌+ℤ◌, ◌-ℤ◌, ◌*ℤ◌, ◌≤ℤ◌, ltb_ℤ, leb_ℤ}
use can_framework.Prelude.Table.{first}
use can_framework.Money.{one}
use can_framework.Value.Proofs.{Node}
use can_framework.Value.Engine.{
  Floats, InputDef, Change, ValueConfig, AssetEvidence, confidence, gather_inputs,
  load_value_config, def_of,
}
use can_framework.Value.Engine.Scenarios.{Values, apply_changes}
use can_framework.Value.Engine.Bounds.{InOrder, AllInRange, keys, apply_changes_in_range}
use can_framework.Value.Engine.Confidence.{confidence_bounds}
use can_framework.Value.Documents.{
  Seals, Issue, Document, Profile, build_map_slice, sealed, header_of, evidence_items,
}
use can_framework.Value.Documents.Reports.{verify_document}
use can_framework.Value.Documents.Arrivals.{import_doc, EvidenceDb, Arrival, import_document}
use can_framework.Value.Documents.Checked.{
  IsVerified, HasSignatures, withhold, built_documents_verify, withheld_stays_valid,
}
use can_framework.Value.Documents.Imported.{IsTaken, import_doc_trusts}
use can_framework.Tests.Value.Peers.{asset}

abbrev whole : Floats
whole = record {
  Float = ℤ;
  zero = pos 0;
  one = pos 1;
  twelve = pos 12;
  hundred = pos 100;
  add = λ a b. a +ℤ b;
  sub = λ a b. a -ℤ b;
  mul = λ a b. a *ℤ b;
  div = λ a b. none;
  less = ltb_ℤ;
  same = λ a b. leb_ℤ a b && leb_ℤ b a;
  abs = λ a. if ltb_ℤ a (pos 0) then pos 0 -ℤ a else a;
  round = λ places a. a;
}

abbrev area : InputDef whole
area = record {
  key = "area";
  category = "land";
  required = true;
  weight = pos one;
  min = some (pos 0);
  max = some (pos 9);
  default = none;
}

abbrev cfg : ValueConfig whole
cfg = record { categories = "land" ∷ []; inputs = area ∷ []; scenarios = [] }

abbrev grown : Change whole
grown = record { key = "area"; mul = some (pos 3); add = none }

abbrev evidence : AssetEvidence whole
evidence = record {
  id = 1;
  recorded_at = 1;
  asset_id = 1;
  category = "land";
  key = "area";
  value = some (pos 4);
  text = none;
  unit = none;
  evidence_ref = none;
  attester_subject = some "coop";
  self_reported = false;
  superseded_at = none;
}

abbrev seals : Seals whole
seals = record {
  sha_item = λ salt content. "h";
  sha_root = λ header hs body. "r";
  public_key = λ key. key;
  sign = λ key root. key;
  verifies = λ key root value. str_eq key value;
}

seals-HasSignatures : HasSignatures whole seals
seals-HasSignatures key root = (str_eq_iff key key).1 refl

whole-InOrder :
    (key : String) (d : InputDef whole)
    → first (def_of whole key) cfg.inputs ≡ some d
    → InOrder whole d.min d.max
whole-InOrder key d h =
    let is_area : area ≡ d = ground arith in
    subst (λ (x : InputDef whole). InOrder whole x.min x.max) is_area refl

-- Not of zero: the values that come out are in their ranges, and of the same inputs.
apply_changes_in_range_example :
    (ws : Values whole) × (apply_changes whole cfg (grown ∷ []) (("area", pos 4) ∷ []) ≡ some ws)
    × AllInRange whole cfg ws
    × (keys whole ws ≡ "area" ∷ [])
apply_changes_in_range_example =
    apply_changes_in_range whole cfg (grown ∷ []) (("area", pos 4) ∷ []) (λ x. ground arith)
      whole-InOrder refl refl (refl, tt)

weight_is_whole : pos 0 ≤ℤ pos one
weight_is_whole = ground arith

confidence_bounds_example :
    let c = confidence whole cfg (gather_inputs whole cfg (evidence ∷ [])) in
    (pos 0 ≤ℤ c)
    × (c ≤ℤ pos 1_000_002_000)
    × (All (λ e. e.self_reported ≡ true) (evidence ∷ []) → c ≡ pos 0)
unfolding load_value_config ◌-ℤ◌ ◌+ℤ◌
confidence_bounds_example =
    confidence_bounds whole cfg cfg (evidence ∷ []) refl (refl, tt) (weight_is_whole, tt)

abbrev node : Node
node = record { node_id = "a"; signing_key = some "ka" }

abbrev issue : Issue whole
issue = record { document_id = "d"; issued_at = 1; salts = λ id. "s" }

abbrev slice : Document whole
slice = build_map_slice whole seals node cfg issue (evidence ∷ []) [] [] (asset ∷ []) none

built_documents_verify_example :
    IsVerified whole node
      (("a", "ka") ∷ [])
      (λ key. key)
      (verify_document whole seals (("a", "ka") ∷ []) slice)
built_documents_verify_example =
    (built_documents_verify whole seals node (("a", "ka") ∷ []) cfg issue (evidence ∷ []) none
        seals-HasSignatures).1
      [] [] (asset ∷ [])

withheld_stays_valid_example :
    (verify_document whole seals [] (withhold whole (λ i. true) slice)).valid ≡ true
unfolding verify_document build_map_slice
withheld_stays_valid_example = (withheld_stays_valid whole seals [] (λ i. true) slice refl).0

abbrev arrival : Arrival whole
arrival = record { holder_user_id = 5; now = 9; ids = λ id. id; id_text = λ id. "1" }

-- A piece of evidence in a document that a trusted node signed, and whose header names that node.
abbrev shared : Document whole
shared =
    sealed whole seals node (header_of whole Profile.value node issue [] none)
      (evidence_items whole seals (λ id. "s") none (evidence ∷ [])) none

abbrev trusted_keys : List (String × String)
trusted_keys = ("a", "ka") ∷ []

abbrev empty_db : EvidenceDb whole
empty_db = record { assets = []; evidence = []; fresh = 3 }

import_doc_trusts_example :
    let report = verify_document whole seals trusted_keys shared in
    IsTaken whole cfg report arrival shared empty_db
      (import_doc whole seals trusted_keys arrival shared empty_db).1
      (record { asset_id = 3; imported_items = 1; skipped_items = 0; attested = true })
unfolding load_value_config import_doc import_document verify_document sealed evidence_items ◌-ℤ◌
    ◌+ℤ◌
import_doc_trusts_example =
    (import_doc_trusts whole seals trusted_keys cfg cfg arrival shared empty_db refl (refl, tt)
        (weight_is_whole, tt) tt).2
      (record { asset_id = 3; imported_items = 1; skipped_items = 0; attested = true }) refl
