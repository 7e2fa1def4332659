-- ===== src/Service/Mapper/Cidr.antt =====
-- The CIDR text that the mapper writes is the one that the tracker reads.
use rmc_fabric.Base.{
  suc, [], ◌∷◌, ◌++◌, ◌≡◌, refl, ap, ◌∙◌, Text, Bool, true, not, some, if◌then◌else◌, ◌&&◌, ◌==◌,
  arith,
}
use rmc_fabric.Netlink.Types.{InterfaceIpEvent, digits, read, read-digits}
use rmc_fabric.Model.LocalState.{extract_ip_from_cidr, before_slash}
use rmc_fabric.Service.Mapper.{make_cidr}

-- No byte of the text is a slash.
abbrev pub has_no_slash : Text → Bool
has_no_slash [] = true
has_no_slash (c ∷ s) = not (c == b'/') && has_no_slash s

-- The text after the first slash.
abbrev pub after_slash : Text → Text
after_slash [] = []
after_slash (c ∷ s) = let rest = after_slash s in if c == b'/' then s else rest

before_slash-append : (s t : Text) → has_no_slash s ≡ true → before_slash (s ++ (b'/' ∷ t)) ≡ some s
before_slash-append [] t h = refl
before_slash-append (c ∷ s) t h = ground (arith, before_slash-append s t)

after_slash-append : (s t : Text) → has_no_slash s ≡ true → after_slash (s ++ (b'/' ∷ t)) ≡ t
after_slash-append [] t h = refl
after_slash-append (c ∷ s) t h = ground (arith, after_slash-append s t)

-- If the address of an event has no slash, then the tracker reads that address out of the CIDR
-- text that the mapper makes of the event, and the digits after the slash spell its prefix length.
pub extract_ip_from_cidr-make_cidr :
    (e : InterfaceIpEvent)
    → has_no_slash e.address ≡ true
    → (extract_ip_from_cidr (make_cidr e) ≡ e.address)
      × (read (after_slash (make_cidr e)) 0 ≡ e.prefix_len)
unfolding extract_ip_from_cidr make_cidr
extract_ip_from_cidr-make_cidr e h =
    let shown = digits (suc e.prefix_len) e.prefix_len [] in
    (
      rw (extract_ip_from_cidr, before_slash-append e.address shown h) refl,
      ap (λ t. read t 0) (after_slash-append e.address shown h)
          ∙ read-digits (suc e.prefix_len) e.prefix_len [] (omega arith),
    )
