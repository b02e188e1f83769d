-- ===== src/Bridge/Rails.antt =====
-- backend/app/bridge/rails.py: the settlement rails and the advisory reviews.
use Prim.Native.String.{◌++◌ as concat}
use can_framework.Prelude.{Option, none, some, List, [], ◌∷◌, String, str_eq, if◌then◌else◌}
use can_framework.Prelude.Outcome.{Result, ok, err}
use can_framework.Bridge.Records.{
  Layer, SourceType, TransferStatus, Error, unknown_rail, not_implemented,
}

pub record SettlementResult : Type 0 where
  pub rail : String
  pub external_ref : String
  pub status : TransferStatus

-- The four rails of RAILS.
pub data Rail : Type 0 where
  simulated instant_payment tokenised_deposit offline_value : Rail

pub rail_layer : Rail → Layer
rail_layer Rail.simulated = Layer.fiat
rail_layer Rail.instant_payment = Layer.fiat
rail_layer Rail.tokenised_deposit = Layer.modernised_fiat
rail_layer Rail.offline_value = Layer.modernised_fiat

abbrev pub simulated_result : String → SettlementResult
simulated_result token = record {
  rail = "simulated";
  external_ref = concat "sim:" token;
  status = TransferStatus.settled;
}

-- `settle`: the simulated rail answers with a reference made from `token`, its `uuid4().hex[:12]`;
-- the other rails are placeholders that raise.
unfoldable pub settle : String → Rail → Result Error SettlementResult
settle token Rail.simulated = ok (simulated_result token)
settle token Rail.instant_payment = err not_implemented
settle token Rail.tokenised_deposit = err not_implemented
settle token Rail.offline_value = err not_implemented

-- The name of the default rail stands in for no name and for the empty name.
abbrev name_or_default : Option String → String
name_or_default none = "simulated"
name_or_default (some name) = if str_eq name "" then "simulated" else name

unfoldable pub get_rail : Option String → Result Error Rail
get_rail name =
    let n = name_or_default name in
    if str_eq n "simulated"
    then ok Rail.simulated
    else if str_eq n "instant_payment"
    then ok Rail.instant_payment
    else if str_eq n "tokenised_deposit"
    then ok Rail.tokenised_deposit
    else if str_eq n "offline_value"
    then ok Rail.offline_value
    else err unknown_rail

pub data Review : Type 0 where
  securities valuation tax ethical : Review

abbrev pub compliance_review_required : SourceType → List Review
compliance_review_required SourceType.capital = Review.securities ∷ Review.tax ∷ Review.ethical ∷ []
compliance_review_required SourceType.participation_units =
    Review.securities ∷ Review.tax ∷ Review.ethical ∷ []
compliance_review_required SourceType.in_kind = Review.valuation ∷ Review.tax ∷ Review.ethical ∷ []
compliance_review_required SourceType.community =
    Review.valuation ∷ Review.tax ∷ Review.ethical ∷ []
compliance_review_required SourceType.pre_committed_use = Review.tax ∷ Review.ethical ∷ []
