-- ===== src/Base/Strings.antt =====
-- `std::string` as the list of its bytes.
use Prim.Native.Nat.{ℕ}
use Prim.Native.Char.{code}
use Prim.Native.String.{String}
use mathlib.Core.Path.{◌≡◌, refl}
use mathlib.Core.Bool.{Bool, true, false, ◌&&◌, ◌||◌}
use mathlib.Core.List.{List, [], ◌∷◌}
use native.Mathlib.Decide.{ℕ_discrete}
use rmc_fabric.Base.Tests.{ltb, ◌==◌}

abbrev pub Text : Type 0
Text = List ℕ

-- The bytes of an ASCII literal.
abbrev pub codes : String → Text
codes String.[] = []
codes (String.◌∷◌ c s) = code c ∷ codes s

head_eq : {a b : ℕ} {s t : Text} → a ∷ s ≡ b ∷ t → a ≡ b
head_eq e = cc

tail_eq : {a b : ℕ} {s t : Text} → a ∷ s ≡ b ∷ t → s ≡ t
tail_eq e = cc

cons_eq : {a b : ℕ} {s t : Text} → a ≡ b → s ≡ t → a ∷ s ≡ b ∷ t
cons_eq p q = cc

nil_ne_cons : {b : ℕ} {t : Text} → [] ≡ b ∷ t → ⊥
nil_ne_cons e = cc

cons_ne_nil : {b : ℕ} {t : Text} → b ∷ t ≡ [] → ⊥
cons_ne_nil e = cc

-- `std::string::operator==`
unfoldable pub text_discrete : Discrete Text
unfolding ℕ_discrete head_eq tail_eq cons_eq nil_ne_cons cons_ne_nil
text_discrete [] [] = yes refl
text_discrete [] (b ∷ t) = no nil_ne_cons
text_discrete (a ∷ s) [] = no cons_ne_nil
text_discrete (a ∷ s) (b ∷ t) =
    let rest = text_discrete s t in
    elim (ℕ_discrete a b) [
      | no n ↦ no (λ e. n (head_eq e))
      | yes p ↦ elim rest [ no n ↦ no (λ e. n (tail_eq e)) | yes q ↦ yes (cons_eq p q) ]
    ]

-- `std::string::operator<`
unfoldable pub text_lt : Text → Text → Bool
text_lt [] [] = false
text_lt [] (b ∷ bs) = true
text_lt (a ∷ as') [] = false
text_lt (a ∷ as') (b ∷ bs) = ltb a b || (a == b && text_lt as' bs)

-- `std::string_view::starts_with`, the prefix second.
unfoldable pub starts_with : Text → Text → Bool
starts_with s [] = true
starts_with [] (p ∷ ps) = false
starts_with (c ∷ s) (p ∷ ps) = c == p && starts_with s ps

abbrev pub is_empty {ℓ} : {A : Type ℓ} → List A → Bool
is_empty [] = true
is_empty (x ∷ xs) = false

dec_true {ℓ} : {A : Type ℓ} → Dec A → Bool
dec_true (yes a) = true
dec_true (no n) = false

text_discrete-true : dec_true (text_discrete (codes "eth0") (codes "eth0")) ≡ true
unfolding text_discrete dec_true
text_discrete-true = refl

text_discrete-false : dec_true (text_discrete (codes "eth0") (codes "eth1")) ≡ false
unfolding text_discrete dec_true
text_discrete-false = refl
