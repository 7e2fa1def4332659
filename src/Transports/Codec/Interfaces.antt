-- ===== src/Transports/Codec/Interfaces.antt =====
-- Local interfaces and local snapshots as variant maps, and back.
pub mod RoundTrip
use rmc_fabric.Base.{
  ℕ, Text, text_discrete, codes, Bool, true, false, List, [], ◌∷◌, Option, none, some, leb, ite,
  map,
}
use rmc_fabric.Base.Result.{Result, ok, err, ◌>>=◌, ◌>>◌, require}
use rmc_fabric.Containers.Map
use rmc_fabric.Model.Types.{LocalInterfaceState}
use rmc_fabric.Transports.Variant.{Variant, VariantMap}
use rmc_fabric.Transports.Codec.Checks.{
  Decoded, DecodeErrorCode, length, validate_key, validate_string, validate_optional,
  validate_string_set, validate_map_limit, require_int32, require_string, require_bool,
  optional_string, require_string_set,
}
use rmc_fabric.Transports.Codec.Loops.{emplace_each}

abbrev pub max_interfaces : ℕ
max_interfaces = 256

-- `snapshot.interfaces`
abbrev pub WireSnapshot : Type 0
WireSnapshot = List (Text × LocalInterfaceState)

module _ {V : Type 0} ⦃v : Variant V⦄ where
  -- `d[key] = DBus::Variant(value);`
  abbrev pub put : Text → V → VariantMap V → VariantMap V
  put key value d = Map.insert text_discrete key value d

  -- `if (value) d[key] = DBus::Variant(*value);`
  unfoldable pub put_optional : Text → Option Text → VariantMap V → VariantMap V
  put_optional key none d = d
  put_optional key (some value) d = put key (v.of_string value) d

  abbrev pub strings : List Text → V
  strings values = v.of_vector (map v.of_string values)

  -- The entries, last to first.
  unfoldable pub interface_fields : LocalInterfaceState → VariantMap V
  interface_fields iface = put (codes "ipv6") (strings iface.ipv6) (
      put (codes "ipv4") (strings iface.ipv4) (
        put_optional (codes "master") iface.master_ifname (
          put (codes "operstate") (v.of_string iface.operstate) (
            put (codes "running") (v.of_bool iface.running) (
              put (codes "adminUp") (v.of_bool iface.admin_up) (
                put (codes "mac") (v.of_string iface.mac) (
                  put (codes "ifname") (v.of_string iface.ifname)
                    (put (codes "ifindex") (v.of_int32 iface.ifindex) []))))))))

  unfoldable pub interface_to_variant_map : LocalInterfaceState → Decoded (VariantMap V)
  interface_to_variant_map iface = do
    validate_string iface.ifname
    validate_string iface.mac
    validate_string iface.operstate
    validate_optional iface.master_ifname
    validate_string_set iface.ipv4
    validate_string_set iface.ipv6
    ok (interface_fields iface)

  unfoldable pub from_variant_map_iface : VariantMap V → Decoded LocalInterfaceState
  from_variant_map_iface m = do
    validate_map_limit m 9
    ifindex ← require_int32 m (codes "ifindex")
    ifname ← require_string m (codes "ifname")
    mac ← require_string m (codes "mac")
    admin_up ← require_bool m (codes "adminUp")
    running ← require_bool m (codes "running")
    operstate ← require_string m (codes "operstate")
    master_ifname ← optional_string m (codes "master")
    ipv4 ← require_string_set m (codes "ipv4")
    ipv6 ← require_string_set m (codes "ipv6")
    ok (record {
      ifindex = ifindex;
      ifname = ifname;
      mac = mac;
      admin_up = admin_up;
      running = running;
      operstate = operstate;
      master_ifname = master_ifname;
      ipv4 = ipv4;
      ipv6 = ipv6;
    })

  -- The body of the loop of `encodeLocalSnapshot`.
  unfoldable pub encode_interface : Text → LocalInterfaceState → Decoded V
  encode_interface name iface = do
    validate_key name
    ite (text_discrete name iface.ifname) (ok tt) (err DecodeErrorCode.invalid_value)
    fields ← interface_to_variant_map iface
    ok (v.of_map fields)

  unfoldable pub encode_local_snapshot : WireSnapshot → Decoded (VariantMap V)
  encode_local_snapshot interfaces = do
    require (leb (length interfaces) max_interfaces) DecodeErrorCode.limit_exceeded
    emplace_each encode_interface interfaces []

  -- An exception of `to_map` is turned into `invalid_type`.
  abbrev pub map_of : Option (VariantMap V) → Decoded (VariantMap V)
  map_of none = err DecodeErrorCode.invalid_type
  map_of (some m) = ok m

  -- The body of the loop of `fromVariantMapLocalSnapshot`.
  unfoldable pub decode_interface : Text → V → Decoded LocalInterfaceState
  decode_interface name value = do
    validate_key name
    fields ← map_of (v.to_map value)
    iface ← from_variant_map_iface fields
    ite (text_discrete name iface.ifname) (ok tt) (err DecodeErrorCode.invalid_value)
    ok iface

  unfoldable pub from_variant_map_local_snapshot : VariantMap V → Decoded WireSnapshot
  from_variant_map_local_snapshot m = do
    require (leb (length m) max_interfaces) DecodeErrorCode.limit_exceeded
    emplace_each decode_interface m []
