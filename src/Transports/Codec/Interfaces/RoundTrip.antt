-- ===== src/Transports/Codec/Interfaces/RoundTrip.antt =====
-- A local interface is decoded as it was encoded.
use mathlib.Core.Option
use rmc_fabric.Base.{
  ◌≡◌, refl, subst, ℕ, ◌<◌, ◌^◌, ◌≤◌, suc, Text, text_discrete, codes, [], ◌∷◌, Option, none, some,
  ite, arith, leb, true,
}
use rmc_fabric.Base.Result.{ok, >>-eq-ok, ok_eq}
use rmc_fabric.Containers.Map
use rmc_fabric.Model.Types.{LocalInterfaceState}
use rmc_fabric.Transports.Variant.{Variant, VariantMap, IsVariant}
use rmc_fabric.Transports.Codec.Checks.{
  length, validate_key, validate_string, validate_optional, validate_string_set, validate_map_limit,
}
use rmc_fabric.Transports.Codec.Reads.{
  IsSorted, require_string-found, require_bool-found, require_int32-found, optional_string-found,
  require_string_set-found,
}
use rmc_fabric.Transports.Codec.Interfaces.{
  put, put_optional, strings, interface_fields, interface_to_variant_map, from_variant_map_iface,
}

-- What an entry of an `int`, and of the two sets of text, is in the code.
pub record IsInterface (iface : LocalInterfaceState) : Type 0 where
  pub index : iface.ifindex < 2 ^ 32
  pub ipv4 : IsSorted iface.ipv4
  pub ipv6 : IsSorted iface.ipv6

module _ {V : Type 0} ⦃v : Variant V⦄ where
  abbrev pub or_else : Option V → Option V → Option V
  or_else none o = o
  or_else (some a) o = some a

  pub or_else-none : (o : Option V) → or_else o none ≡ o
  or_else-none none = refl
  or_else-none (some a) = refl

  pub lookup-put_optional :
      (j key : Text) (o : Option Text) (d : VariantMap V)
      → Map.lookup text_discrete j (put_optional key o d)
        ≡ ite
            (text_discrete key j)
            (or_else (Option.map v.of_string o) (Map.lookup text_discrete j d))
            (Map.lookup text_discrete j d)
  unfolding put_optional
  lookup-put_optional j key none d = ground arith
  lookup-put_optional j key (some a) d = Map.lookup-insert text_discrete j key (v.of_string a) d

  pub length-put :
      (key : Text) (value : V) (d : VariantMap V) → length (put key value d) ≤ suc (length d)
  unfolding Map.insert
  length-put key value [] = omega arith
  length-put key value ((j, w) ∷ d) = ground (arith, length-put key value d)

  pub length-put_optional :
      (key : Text) (o : Option Text) (d : VariantMap V)
      → length (put_optional key o d) ≤ suc (length d)
  unfolding put_optional
  length-put_optional key none d = omega arith
  length-put_optional key (some a) d = length-put key (v.of_string a) d

  -- The entries put add at most one to a bound each.
  pub put_within :
      (key : Text) (value : V) (d : VariantMap V) {n : ℕ}
      → length d ≤ n
      → length (put key value d) ≤ suc n
  put_within key value d h = omega (arith, length-put key value d)

  pub put_optional_within :
      (key : Text) (o : Option Text) (d : VariantMap V) {n : ℕ}
      → length d ≤ n
      → length (put_optional key o d) ≤ suc n
  put_optional_within key o d h = omega (arith, length-put_optional key o d)

module _ {V : Type 0} ⦃v : Variant V⦄ (iface : LocalInterfaceState) where
  lookup_ifindex :
      Map.lookup text_discrete (codes "ifindex") (interface_fields {V = V} iface)
      ≡ some (v.of_int32 iface.ifindex)
  unfolding interface_fields text_discrete
  lookup_ifindex = simp (Map.lookup-insert, lookup-put_optional) refl

  lookup_ifname :
      Map.lookup text_discrete (codes "ifname") (interface_fields {V = V} iface)
      ≡ some (v.of_string iface.ifname)
  unfolding interface_fields text_discrete
  lookup_ifname = simp (Map.lookup-insert, lookup-put_optional) refl

  lookup_mac :
      Map.lookup text_discrete (codes "mac") (interface_fields {V = V} iface)
      ≡ some (v.of_string iface.mac)
  unfolding interface_fields text_discrete
  lookup_mac = simp (Map.lookup-insert, lookup-put_optional) refl

  lookup_admin_up :
      Map.lookup text_discrete (codes "adminUp") (interface_fields {V = V} iface)
      ≡ some (v.of_bool iface.admin_up)
  unfolding interface_fields text_discrete
  lookup_admin_up = simp (Map.lookup-insert, lookup-put_optional) refl

  lookup_running :
      Map.lookup text_discrete (codes "running") (interface_fields {V = V} iface)
      ≡ some (v.of_bool iface.running)
  unfolding interface_fields text_discrete
  lookup_running = simp (Map.lookup-insert, lookup-put_optional) refl

  lookup_operstate :
      Map.lookup text_discrete (codes "operstate") (interface_fields {V = V} iface)
      ≡ some (v.of_string iface.operstate)
  unfolding interface_fields text_discrete
  lookup_operstate = simp (Map.lookup-insert, lookup-put_optional) refl

  lookup_master_ifname :
      Map.lookup text_discrete (codes "master") (interface_fields {V = V} iface)
      ≡ Option.map v.of_string iface.master_ifname
  unfolding interface_fields text_discrete Map.lookup
  lookup_master_ifname =
      simp (Map.lookup-insert, lookup-put_optional)
        (or_else-none (Option.map v.of_string iface.master_ifname))

  lookup_ipv4 :
      Map.lookup text_discrete (codes "ipv4") (interface_fields {V = V} iface)
      ≡ some (strings iface.ipv4)
  unfolding interface_fields text_discrete
  lookup_ipv4 = simp (Map.lookup-insert, lookup-put_optional) refl

  lookup_ipv6 :
      Map.lookup text_discrete (codes "ipv6") (interface_fields {V = V} iface)
      ≡ some (strings iface.ipv6)
  unfolding interface_fields text_discrete
  lookup_ipv6 = simp (Map.lookup-insert, lookup-put_optional) refl

length-interface_fields :
    (V : Type 0) ⦃v : Variant V⦄ (iface : LocalInterfaceState)
    → leb (length (interface_fields {V = V} iface)) 9 ≡ true
unfolding interface_fields
length-interface_fields V iface =
    let few : length (interface_fields {V = V} iface) ≤ 9 = put_within _ _ _ (
      put_within _ _ _ (
        put_optional_within _ _ _ (
          put_within _ _ _ (
            put_within _ _ _ (
              put_within _ _ _
                (put_within _ _ _ (put_within _ _ _ (put_within _ _ _ (omega arith))))))))) in
    ground (arith, few)

module _ {V : Type 0} ⦃v : Variant V⦄ (laws : IsVariant v) where
  -- If a local interface, its index within 32 bits and its sets of addresses in order, is encoded
  -- without an error, then the map decodes to that interface.
  pub from_variant_map_iface-interface_to_variant_map :
      (iface : LocalInterfaceState) (m : VariantMap V)
      → IsInterface iface
      → interface_to_variant_map iface ≡ ok m
      → from_variant_map_iface m ≡ ok iface
  unfolding interface_to_variant_map from_variant_map_iface validate_map_limit validate_key
  from_variant_map_iface-interface_to_variant_map iface m valid e =
      let (ename, e) = >>-eq-ok (validate_string iface.ifname) _ e in
      let (emac, e) = >>-eq-ok (validate_string iface.mac) _ e in
      let (eoper, e) = >>-eq-ok (validate_string iface.operstate) _ e in
      let (emaster, e) = >>-eq-ok (validate_optional iface.master_ifname) _ e in
      let (e4, e) = >>-eq-ok (validate_string_set iface.ipv4) _ e in
      let (e6, e) = >>-eq-ok (validate_string_set iface.ipv6) _ e in
      subst (λ n. from_variant_map_iface n ≡ ok iface) (ok_eq e)
        (rw
          (
            length-interface_fields V iface,
            require_int32-found laws _ (codes "ifindex") refl (lookup_ifindex iface) valid.index,
            require_string-found laws _ (codes "ifname") refl (lookup_ifname iface) ename,
            require_string-found laws _ (codes "mac") refl (lookup_mac iface) emac,
            require_bool-found laws _ (codes "adminUp") refl (lookup_admin_up iface),
            require_bool-found laws _ (codes "running") refl (lookup_running iface),
            require_string-found laws _ (codes "operstate") refl (lookup_operstate iface) eoper,
            optional_string-found laws _ (codes "master") _ (lookup_master_ifname iface) emaster,
            require_string_set-found laws _ (codes "ipv4") refl (lookup_ipv4 iface) e4 valid.ipv4,
            require_string_set-found laws _ (codes "ipv6") refl (lookup_ipv6 iface) e6 valid.ipv6,
          )
          refl)
