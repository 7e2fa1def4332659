-- ===== src/Examples/Wire.antt =====
-- The codec at concrete inputs, with a concrete variant.
use rmc_fabric.Base.{
  ◌≡◌, refl, ap, ◌<◌, ◌^◌, ◌%◌, ℕ, ℤ, pos, Text, codes, text_discrete, Bool, true, false, List, [],
  ◌∷◌, Option, none, some, arith,
}
use rmc_fabric.Transports.Variant.{Variant, IsVariant, VariantMap, DataType}
use rmc_fabric.Base.{text_lt}
use rmc_fabric.Base.Result.{ok}
use rmc_fabric.Containers.Map
use rmc_fabric.Containers.Set
use rmc_fabric.Model.Types.{
  LocalInterfaceState, CandidateClassification, CandidateStatus, text_ordered,
}
use rmc_fabric.Model.LocalState.{extract_ip_from_cidr}
use rmc_fabric.Netlink.Types.{InterfaceIpEvent, read}
use rmc_fabric.Service.Mapper.{make_cidr}
use rmc_fabric.Service.Mapper.Cidr.{after_slash, extract_ip_from_cidr-make_cidr}
use rmc_fabric.Transports.Codec.Checks.{
  validate_key, validate_string, validate_optional, validate_strings, validate_string_set,
}
use rmc_fabric.Transports.Codec.Loops.{emplace, emplace_each, AreEntries}
use rmc_fabric.Transports.Codec.Interfaces.{
  WireSnapshot, interface_fields, interface_to_variant_map, from_variant_map_iface,
  encode_interface, encode_local_snapshot, from_variant_map_local_snapshot,
}
use rmc_fabric.Transports.Codec.Interfaces.RoundTrip.{
  IsInterface, from_variant_map_iface-interface_to_variant_map,
}
use rmc_fabric.Transports.Codec.Candidates.{
  WireCandidate, candidate_fields, candidate_to_variant_map, from_variant_map_candidate,
}
use rmc_fabric.Transports.Codec.Candidates.RoundTrip.{
  from_variant_map_candidate-candidate_to_variant_map,
}
use rmc_fabric.Transports.Codec.Issues.{
  Issues, IssueFields, encode_issue_field, encode_issue, encode_issues, decode_issues,
  validate_required_issue_fields,
}
use rmc_fabric.Transports.Codec.Snapshots.{
  from_variant_map_local_snapshot-encode_local_snapshot, decode_issues-encode_issues,
}
use rmc_fabric.Transports.Codec.Again.{from_variant_map_candidate-again}
use rmc_fabric.Transports.Codec.Ingress.{
  IsNamed, IsIssue, from_variant_map_local_snapshot-AreEntries, decode_issues-AreEntries,
}
use rmc_fabric.Base.{ite}
use rmc_fabric.Model.Types.{RemoteCandidate}
use rmc_fabric.Transports.Query.{QueryService}
use rmc_fabric.Examples.{known}

mutual
  data Value : Type 0 where
    text : Text → Value
    truth : Bool → Value
    word : ℕ → Value
    signed : ℤ → Value
    long : ℕ → Value
    array : Values → Value
    dict : Entries → Value

  data Values : Type 0 where
    no_values : Values
    value : Value → Values → Values

  data Entries : Type 0 where
    no_entries : Entries
    entry : Text → Value → Entries → Entries

abbrev from_list : List Value → Values
from_list [] = no_values
from_list (x ∷ xs) = value x (from_list xs)

abbrev to_list : Values → List Value
to_list no_values = []
to_list (value x xs) = x ∷ to_list xs

abbrev from_entries : VariantMap Value → Entries
from_entries [] = no_entries
from_entries ((k, x) ∷ xs) = entry k x (from_entries xs)

abbrev to_entries : Entries → VariantMap Value
to_entries no_entries = []
to_entries (entry k x xs) = (k, x) ∷ to_entries xs

to_list-from_list : (xs : List Value) → to_list (from_list xs) ≡ xs
to_list-from_list [] = refl
to_list-from_list (x ∷ xs) = ap (λ ys. x ∷ ys) (to_list-from_list xs)

to_entries-from_entries : (m : VariantMap Value) → to_entries (from_entries m) ≡ m
to_entries-from_entries [] = refl
to_entries-from_entries ((k, x) ∷ m) = ap (λ n. (k, x) ∷ n) (to_entries-from_entries m)

abbrev type_of : Value → DataType
type_of (text s) = DataType.string
type_of (truth b) = DataType.boolean
type_of (word n) = DataType.int32
type_of (signed n) = DataType.int64
type_of (long n) = DataType.uint64
type_of _ = DataType.other

abbrev text_of : Value → Text
text_of (text s) = s
text_of _ = []

abbrev truth_of : Value → Bool
truth_of (truth b) = b
truth_of _ = false

abbrev word_of : Value → ℕ
word_of (word n) = n % 2 ^ 32
word_of _ = 0

abbrev signed_of : Value → ℤ
signed_of (signed n) = n
signed_of _ = pos 0

abbrev long_of : Value → ℕ
long_of (long n) = n
long_of _ = 0

abbrev array_of : Value → Option (List Value)
array_of (array xs) = some (to_list xs)
array_of _ = none

abbrev dict_of : Value → Option (VariantMap Value)
dict_of (dict m) = some (to_entries m)
dict_of _ = none

instance abbrev wire : Variant Value
wire = record {
  data_type = type_of;
  of_string = text;
  to_string = text_of;
  of_bool = truth;
  to_bool = truth_of;
  of_int32 = word;
  to_int32 = word_of;
  of_int64 = signed;
  to_int64 = signed_of;
  to_uint32 = word_of;
  of_uint64 = long;
  to_uint64 = long_of;
  of_vector = λ xs. array (from_list xs);
  to_vector = array_of;
  of_map = λ m. dict (from_entries m);
  to_map = dict_of;
}

word_bound : (x : Value) → word_of x < 2 ^ 32
word_bound (word n) = omega arith
word_bound (text s) = omega arith
word_bound (truth b) = omega arith
word_bound (signed n) = omega arith
word_bound (long n) = omega arith
word_bound (array xs) = omega arith
word_bound (dict m) = omega arith

wire-IsVariant : IsVariant wire
wire-IsVariant = record {
  data_type-of_string = λ s. refl;
  to_string-of_string = λ s. refl;
  data_type-of_bool = λ b. refl;
  to_bool-of_bool = λ b. refl;
  data_type-of_int32 = λ n. refl;
  to_int32_bound = word_bound;
  to_int32-of_int32 = λ n h. omega arith;
  data_type-of_int64 = λ n. refl;
  to_int64-of_int64 = λ n h. refl;
  data_type-of_uint64 = λ n. refl;
  to_uint64-of_uint64 = λ n h. refl;
  to_vector-of_vector = λ xs. ap some (to_list-from_list xs);
  to_map-of_map = λ m. ap some (to_entries-from_entries m);
}

abbrev uplink : LocalInterfaceState
uplink = record {
  ifindex = 2;
  ifname = codes "eth0";
  mac = codes "02:00:00:00:00:01";
  admin_up = true;
  running = true;
  operstate = codes "6";
  master_ifname = some (codes "br0");
  ipv4 = codes "10.0.0.1/24" ∷ codes "10.0.1.1/24" ∷ [];
  ipv6 = [];
}

uplink-IsInterface : IsInterface uplink
unfolding text_lt
uplink-IsInterface = record { index = omega arith; ipv4 = ((refl, tt), (tt, tt)); ipv6 = tt }

from_variant_map_iface-interface_to_variant_map_example :
    from_variant_map_iface {V = Value} (interface_fields {V = Value} uplink) ≡ ok uplink
unfolding interface_to_variant_map validate_string validate_optional validate_string_set
    validate_strings
from_variant_map_iface-interface_to_variant_map_example =
    from_variant_map_iface-interface_to_variant_map wire-IsVariant uplink
      (interface_fields {V = Value} uplink) uplink-IsInterface refl

abbrev camera : WireCandidate
camera = record {
  mac = codes "02:00:00:00:00:09";
  classification = CandidateClassification.remote_endpoint;
  status = CandidateStatus.confirmed;
  seen_in_fdb = true;
  seen_in_neigh = true;
  seen_in_lldp = false;
  bridge_port = some (codes "eth0");
  remote_chassis_id = none;
  remote_port_id = none;
  remote_system_name = some (codes "cam");
  neighbor_ifaces = codes "br0" ∷ [];
  ipv4 = codes "10.0.0.9" ∷ [];
  ipv6 = [];
}

camera_sent : candidate_to_variant_map {V = Value} camera ≡ ok (candidate_fields {V = Value} camera)
unfolding candidate_to_variant_map validate_string validate_optional validate_string_set
    validate_strings
camera_sent = refl

from_variant_map_candidate-candidate_to_variant_map_example :
    from_variant_map_candidate {V = Value} (candidate_fields {V = Value} camera) ≡ ok camera
from_variant_map_candidate-candidate_to_variant_map_example =
    from_variant_map_candidate-candidate_to_variant_map wire-IsVariant camera
      (candidate_fields {V = Value} camera)
      (record { neighbor_ifaces = (tt, tt); ipv4 = (tt, tt); ipv6 = tt }) camera_sent

from_variant_map_candidate-again_example :
    (candidate_to_variant_map {V = Value} camera ≡ ok (candidate_fields {V = Value} camera))
    × (from_variant_map_candidate {V = Value} (candidate_fields {V = Value} camera) ≡ ok camera)
from_variant_map_candidate-again_example =
    from_variant_map_candidate-again wire-IsVariant (candidate_fields {V = Value} camera) camera
      from_variant_map_candidate-candidate_to_variant_map_example

abbrev known_interfaces : WireSnapshot
known_interfaces = (codes "eth0", uplink) ∷ []

abbrev sent_interfaces : VariantMap Value
sent_interfaces = (codes "eth0", wire.of_map (interface_fields {V = Value} uplink)) ∷ []

known_interfaces_sent : encode_local_snapshot known_interfaces ≡ ok sent_interfaces
unfolding encode_local_snapshot encode_interface emplace_each emplace validate_key text_discrete
    interface_to_variant_map validate_string validate_optional validate_string_set validate_strings
known_interfaces_sent = refl

from_variant_map_local_snapshot-encode_local_snapshot_example :
    from_variant_map_local_snapshot sent_interfaces ≡ ok known_interfaces
unfolding Set.contains
from_variant_map_local_snapshot-encode_local_snapshot_example =
    from_variant_map_local_snapshot-encode_local_snapshot wire-IsVariant known_interfaces
      sent_interfaces (uplink-IsInterface, tt) (refl, tt) known_interfaces_sent

from_variant_map_local_snapshot-AreEntries_example : AreEntries IsNamed 256 known_interfaces
from_variant_map_local_snapshot-AreEntries_example =
    from_variant_map_local_snapshot-AreEntries sent_interfaces known_interfaces
      from_variant_map_local_snapshot-encode_local_snapshot_example

abbrev stopped_issue : IssueFields
stopped_issue =
    (codes "category", codes "worker")
    ∷ (codes "component", codes "runtime")
    ∷ (codes "identity", codes "aging")
    ∷ (codes "message", codes "aging stopped")
    ∷ (codes "operation", codes "run")
    ∷ (codes "severity", codes "error")
    ∷ []

abbrev known_issues : Issues
known_issues = (codes "observation.worker.aging.stopped", stopped_issue) ∷ []

abbrev sent_issue : IssueFields → VariantMap Value
sent_issue [] = []
sent_issue ((name, s) ∷ fields) = (name, wire.of_string s) ∷ sent_issue fields

abbrev sent_issues : List (Text × VariantMap Value)
sent_issues = (codes "observation.worker.aging.stopped", sent_issue stopped_issue) ∷ []

known_issues_sent : encode_issues known_issues ≡ ok sent_issues
unfolding encode_issues encode_issue encode_issue_field emplace_each emplace validate_key
    text_discrete validate_string validate_required_issue_fields Map.lookup
known_issues_sent = refl

decode_issues-encode_issues_example : decode_issues sent_issues ≡ ok known_issues
unfolding Set.contains text_discrete
decode_issues-encode_issues_example =
    decode_issues-encode_issues wire-IsVariant known_issues sent_issues
      ((refl, (refl, (refl, (refl, (refl, (refl, tt)))))), tt) (refl, tt) known_issues_sent

decode_issues-AreEntries_example : AreEntries IsIssue 128 known_issues
decode_issues-AreEntries_example =
    decode_issues-AreEntries sent_issues known_issues decode_issues-encode_issues_example

abbrev eth0_address : InterfaceIpEvent
eth0_address = record {
  ifname = codes "eth0";
  family = 2;
  address = codes "10.0.0.1";
  prefix_len = 24;
  present = true;
}

extract_ip_from_cidr-make_cidr_example :
    (extract_ip_from_cidr (make_cidr eth0_address) ≡ codes "10.0.0.1")
    × (read (after_slash (make_cidr eth0_address)) 0 ≡ 24)
extract_ip_from_cidr-make_cidr_example = extract_ip_from_cidr-make_cidr eth0_address refl

abbrev seen : RemoteCandidate
seen = record known { ipv4 = codes "10.0.0.9" ∷ [] }

abbrev bound : QueryService
bound = record {
  local_snapshot = record { interfaces = known_interfaces; local_macs = []; local_ips = [] };
  get_interface = λ ifname. some uplink;
  remote_candidates = seen ∷ [];
  get_candidate_by_mac = λ mac. ite (text_discrete mac seen.mac) (some seen) none;
  get_issues = known_issues;
  is_ready = true;
  get_phase = codes "live";
}

abbrev seen_wire : WireCandidate
seen_wire = record {
  mac = seen.mac;
  classification = seen.classification;
  status = seen.status;
  seen_in_fdb = seen.seen_in_fdb;
  seen_in_neigh = seen.seen_in_neigh;
  seen_in_lldp = seen.seen_in_lldp;
  bridge_port = seen.bridge_port;
  remote_chassis_id = seen.remote_chassis_id;
  remote_port_id = seen.remote_port_id;
  remote_system_name = seen.remote_system_name;
  neighbor_ifaces = seen.neighbor_ifaces;
  ipv4 = seen.ipv4;
  ipv6 = seen.ipv6;
}
