-- ===== src/Model/LldpUtils/Laws.antt =====
-- What the identity of an LLDP neighbour is: empty, or a MAC address in lower case.
use mathlib.Core.Path.{ap₂}
use rmc_fabric.Base.{ℕ, suc, ◌≡◌, ◌⊎◌, refl, inl, Text, true, [], ◌∷◌, Option, none, some, arith}
use rmc_fabric.Model.LldpUtils.{
  to_lower, is_mac_like_from, is_mac_like, normalize_mac, mac_of, first_mac, resolve_lldp_identity,
}

-- Upper case letters to lower case, and nothing else, anywhere in the text.
to_lower-to_lower : (c : ℕ) → to_lower (to_lower c) ≡ to_lower c
to_lower-to_lower c = ground arith

is_mac_like-normalize_from :
    (i : ℕ) (s : Text) → is_mac_like_from i (normalize_mac s) ≡ is_mac_like_from i s
unfolding is_mac_like_from normalize_mac
is_mac_like-normalize_from i [] = refl
is_mac_like-normalize_from i (c ∷ s) = ground (arith, is_mac_like-normalize_from (suc i) s)

-- Whether a text looks like a MAC address does not depend on the case of its letters.
pub is_mac_like-normalize : (s : Text) → is_mac_like (normalize_mac s) ≡ is_mac_like s
unfolding is_mac_like
is_mac_like-normalize s = is_mac_like-normalize_from 0 s

pub normalize-normalize : (s : Text) → normalize_mac (normalize_mac s) ≡ normalize_mac s
unfolding normalize_mac
normalize-normalize [] = refl
normalize-normalize (c ∷ s) = ground (arith, normalize-normalize s)

-- A key that the candidates are found by.
abbrev pub IsIdentity : Text → Type 0
IsIdentity key = (key ≡ []) ⊎ ((is_mac_like key ≡ true) × (normalize_mac key ≡ key))

mac_of-IsIdentity : (o : Option Text) (mac : Text) → mac_of o ≡ some mac → IsIdentity mac
mac_of-IsIdentity none mac h = cc
mac_of-IsIdentity (some s) mac h = ground (arith, is_mac_like-normalize s, normalize-normalize s)

first_mac-IsIdentity :
    (chassis port : Option Text)
    → ((mac : Text) → chassis ≡ some mac → IsIdentity mac)
    → ((mac : Text) → port ≡ some mac → IsIdentity mac)
    → IsIdentity (first_mac chassis port)
first_mac-IsIdentity (some mac) port p q = p mac refl
first_mac-IsIdentity none (some mac) p q = q mac refl
first_mac-IsIdentity none none p q = inl refl

-- The resolved identity is empty, or looks like a MAC address and is already normalised.
pub resolve_lldp_identity-IsIdentity :
    (chassis port : Option Text) → IsIdentity (resolve_lldp_identity chassis port)
unfolding resolve_lldp_identity
resolve_lldp_identity-IsIdentity chassis port =
    first_mac-IsIdentity (mac_of chassis) (mac_of port) (mac_of-IsIdentity chassis)
      (mac_of-IsIdentity port)

mac_of-normalize : (s : Text) → mac_of (some (normalize_mac s)) ≡ mac_of (some s)
mac_of-normalize s = ground (arith, is_mac_like-normalize s, normalize-normalize s)

-- The spelling of the two identifiers does not matter: with all letters in lower case they resolve to
-- the same identity.
pub resolve_lldp_identity-normalize :
    (chassis port : Text)
    → resolve_lldp_identity (some (normalize_mac chassis)) (some (normalize_mac port))
      ≡ resolve_lldp_identity (some chassis) (some port)
unfolding resolve_lldp_identity
resolve_lldp_identity-normalize chassis port =
    ap₂ first_mac (mac_of-normalize chassis) (mac_of-normalize port)
