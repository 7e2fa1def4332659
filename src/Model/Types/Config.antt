-- ===== src/Model/Types/Config.antt =====
-- services/network-observation/core/public: the configuration of the model, what it is given, and
-- its events.
use rmc_fabric.Base.{ℕ, Bool, true, false, Option, none, Text, ℤ, pos, negsuc}
use rmc_fabric.Model.Types.Candidates.{RemoteCandidate, CandidateClassification}

pub record ScoringWeights : Type 0 where
  pub unicast_mac : ℤ
  pub ipv4 : ℤ
  pub ipv6 : ℤ
  pub neighbor : ℤ
  pub fdb : ℤ
  pub lldp : ℤ
  pub temporal_bonus : ℤ
  pub aging_penalty : ℤ

pub record ScoringThresholds : Type 0 where
  pub probable : ℤ
  pub confirmed : ℤ
  pub topology : ℤ

-- The default weights and thresholds.
abbrev pub default_weights : ScoringWeights
default_weights = record {
  unicast_mac = pos 20;
  ipv4 = pos 15;
  ipv6 = pos 10;
  neighbor = pos 15;
  fdb = pos 25;
  lldp = pos 40;
  temporal_bonus = pos 10;
  aging_penalty = negsuc 14;
}

abbrev pub default_thresholds : ScoringThresholds
default_thresholds = record { probable = pos 25; confirmed = pos 50; topology = pos 80 }

pub data ClassifierKind : Type 0 where
  rule_based scoring : ClassifierKind

pub record ClassifierConfig : Type 0 where
  pub kind : ClassifierKind
  pub weights : ScoringWeights
  pub thresholds : ScoringThresholds

-- IInterfacePolicy, as the table of its virtual functions.
pub record InterfacePolicy : Type 0 where
  pub include_in_local_state : Text → Bool
  pub allow_remote_neighbor_evidence : Text → Bool
  pub allow_remote_fdb_evidence : Text → Bool
  pub allow_lldp_evidence : Text → Bool

-- ICandidateClassifier::classify
abbrev pub Classifier : Type 0
Classifier = RemoteCandidate → CandidateClassification

pub record ModelConfig : Type 0 where
  pub skip_null_mac : Bool
  pub skip_loopback_interface : Bool
  pub skip_multicast_ipv4 : Bool
  pub skip_multicast_ipv6 : Bool
  pub skip_multicast_mac : Bool
  pub skip_ieee_reserved_mac : Bool
  pub emit_device_if_ip_only : Bool
  pub candidate_ageout : ℕ
  pub candidate_expire : ℕ
  pub interface_policy : Option InterfacePolicy
  pub classifier_config : ClassifierConfig

-- The default configuration, with a second of the clock as the unit of time.
abbrev pub default_config : ModelConfig
default_config = record {
  skip_null_mac = true;
  skip_loopback_interface = true;
  skip_multicast_ipv4 = true;
  skip_multicast_ipv6 = true;
  skip_multicast_mac = true;
  skip_ieee_reserved_mac = true;
  emit_device_if_ip_only = false;
  candidate_ageout = 60;
  candidate_expire = 300;
  interface_policy = none;
  classifier_config = record {
    kind = ClassifierKind.rule_based;
    weights = default_weights;
    thresholds = default_thresholds;
  };
}

pub data ModelEventKind : Type 0 where
  local_interface_changed local_interface_removed local_address_changed : ModelEventKind
  candidate_added candidate_updated candidate_confirmed candidate_aged : ModelEventKind
  candidate_expired candidate_removed classification_changed : ModelEventKind

pub record ModelEvent : Type 0 where
  pub kind : ModelEventKind
  pub timestamp : ℕ
  pub ifname : Option Text
  pub mac : Option Text
