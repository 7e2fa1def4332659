-- ===== src/Transports/Codec/Names.antt =====
-- The strings of the two enumerations, and the readers of the codec.
use rmc_fabric.Base.{◌≡◌, refl, Text, text_discrete, codes, ite}
use rmc_fabric.Base.Result.{ok, err}
use rmc_fabric.Model.Types.{
  CandidateClassification, CandidateStatus, artifact, local_self, weak_candidate, probable_endpoint,
  remote_endpoint, gateway_like, topology_peer, provisional, confirmed, aged, expired,
}
use rmc_fabric.Transports.Codec.Checks.{Decoded, DecodeErrorCode, validate_string}

unfoldable pub classification_to_string : CandidateClassification → Text
classification_to_string artifact = codes "Artifact"
classification_to_string local_self = codes "LocalSelf"
classification_to_string weak_candidate = codes "WeakCandidate"
classification_to_string probable_endpoint = codes "ProbableEndpoint"
classification_to_string remote_endpoint = codes "RemoteEndpoint"
classification_to_string gateway_like = codes "GatewayLike"
classification_to_string topology_peer = codes "TopologyPeer"
classification_to_string CandidateClassification.unknown = codes "Unknown"

-- `if (s == name) return value;`, and what follows.
abbrev pub case_of {ℓ} : {A : Type ℓ} → Text → Text → A → A → A
case_of s name value rest = ite (text_discrete s name) value rest

unfoldable pub classification_from_string : Text → CandidateClassification
classification_from_string s = case_of s (codes "Artifact") artifact (
    case_of s (codes "LocalSelf") local_self (
      case_of s (codes "WeakCandidate") weak_candidate (
        case_of s (codes "ProbableEndpoint") probable_endpoint (
          case_of s (codes "RemoteEndpoint") remote_endpoint (
            case_of s (codes "GatewayLike") gateway_like
              (case_of s (codes "TopologyPeer") topology_peer CandidateClassification.unknown))))))

unfoldable pub status_to_string : CandidateStatus → Text
status_to_string provisional = codes "Provisional"
status_to_string confirmed = codes "Confirmed"
status_to_string aged = codes "Aged"
status_to_string expired = codes "Expired"
status_to_string CandidateStatus.removed = codes "Removed"

unfoldable pub status_from_string : Text → CandidateStatus
status_from_string s = case_of s (codes "Provisional") provisional (
    case_of s (codes "Confirmed") confirmed (
      case_of s (codes "Aged") aged (
        case_of s (codes "Expired") expired
          (case_of s (codes "Removed") CandidateStatus.removed provisional))))

-- `parsed == Unknown && value != "Unknown"` throws.
abbrev unknown_checked : CandidateClassification → Text → Decoded CandidateClassification
unknown_checked CandidateClassification.unknown value =
    case_of value (codes "Unknown") (ok CandidateClassification.unknown)
      (err DecodeErrorCode.invalid_value)
unknown_checked parsed value = ok parsed

unfoldable pub parse_classification : Text → Decoded CandidateClassification
parse_classification value = unknown_checked (classification_from_string value) value

unfoldable pub parse_status : Text → Decoded CandidateStatus
parse_status value = case_of value (codes "Provisional") (ok provisional) (
    case_of value (codes "Confirmed") (ok confirmed) (
      case_of value (codes "Aged") (ok aged) (
        case_of value (codes "Expired") (ok expired) (
          case_of value (codes "Removed") (ok CandidateStatus.removed)
            (err DecodeErrorCode.invalid_value)))))

pub parse_classification-classification_to_string :
    (c : CandidateClassification) → parse_classification (classification_to_string c) ≡ ok c
unfolding parse_classification classification_to_string classification_from_string text_discrete
parse_classification-classification_to_string artifact = refl
parse_classification-classification_to_string local_self = refl
parse_classification-classification_to_string weak_candidate = refl
parse_classification-classification_to_string probable_endpoint = refl
parse_classification-classification_to_string remote_endpoint = refl
parse_classification-classification_to_string gateway_like = refl
parse_classification-classification_to_string topology_peer = refl
parse_classification-classification_to_string CandidateClassification.unknown = refl

pub parse_status-status_to_string : (s : CandidateStatus) → parse_status (status_to_string s) ≡ ok s
unfolding parse_status status_to_string text_discrete
parse_status-status_to_string provisional = refl
parse_status-status_to_string confirmed = refl
parse_status-status_to_string aged = refl
parse_status-status_to_string expired = refl
parse_status-status_to_string CandidateStatus.removed = refl

-- The names are within the limit of a string.
pub short_classification :
    (c : CandidateClassification) → validate_string (classification_to_string c) ≡ ok tt
unfolding validate_string classification_to_string
short_classification artifact = refl
short_classification local_self = refl
short_classification weak_candidate = refl
short_classification probable_endpoint = refl
short_classification remote_endpoint = refl
short_classification gateway_like = refl
short_classification topology_peer = refl
short_classification CandidateClassification.unknown = refl

pub short_status : (s : CandidateStatus) → validate_string (status_to_string s) ≡ ok tt
unfolding validate_string status_to_string
short_status provisional = refl
short_status confirmed = refl
short_status aged = refl
short_status expired = refl
short_status CandidateStatus.removed = refl
