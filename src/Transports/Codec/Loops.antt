-- ===== src/Transports/Codec/Loops.antt =====
-- The loops of the codec, `for (const auto &[k, a] : m) out.emplace(k, f(k, a));`, and what one
-- such loop that undoes another gives back.
use rmc_fabric.Base.{
  ◌≡◌, refl, ap, ◌∙◌, sym, Text, text_discrete, false, List, [], ◌∷◌, ◌++◌, ite, arith, ℕ, suc, ◌+◌,
  ◌≤◌,
}
use rmc_fabric.Base.Result.{ok, ◌>>=◌, >>=-eq-ok, ok_eq, Ensures, holds, Ensures->>=}
use rmc_fabric.Containers.Set
use rmc_fabric.Model.Types.{text_ordered}
use rmc_fabric.Transports.Codec.Checks.{Decoded, length}

module _ {A : Type 0} where
  -- `m.emplace(k, a)`: an entry that is there stays.
  unfoldable pub emplace : Text → A → List (Text × A) → List (Text × A)
  emplace k a [] = (k, a) ∷ []
  emplace k a ((j, b) ∷ m) = ite (text_discrete j k) ((j, b) ∷ m) ((j, b) ∷ emplace k a m)

  abbrev pub keys : List (Text × A) → List Text
  keys [] = []
  keys ((k, a) ∷ m) = k ∷ keys m

unfoldable pub emplace_each :
    {A B : Type 0}
    → (Text → A → Decoded B)
    → List (Text × A)
    → List (Text × B)
    → Decoded (List (Text × B))
emplace_each f [] out = ok out
emplace_each f ((k, a) ∷ m) out = do b ← f k a; emplace_each f m (emplace k b out)

-- No key stands twice, as in a map.
abbrev pub AreDistinct : List Text → Type 0
AreDistinct [] = Unit
AreDistinct (k ∷ ks) = (Set.contains k ks ≡ false) × AreDistinct ks

contains-middle :
    (j : Text) (js : List Text) (k : Text) (ks : List Text)
    → Set.contains j (js ++ (k ∷ ks)) ≡ false
    → Set.contains k (j ∷ []) ≡ false
unfolding Set.contains
contains-middle j [] k ks h = ground arith
contains-middle j (i ∷ js) k ks h = ground (arith, contains-middle j js k ks)

module _ {A : Type 0} where
  emplace-last :
      (k : Text) (a : A) (out : List (Text × A)) (ks : List Text)
      → AreDistinct (keys out ++ (k ∷ ks))
      → emplace k a out ≡ out ++ ((k, a) ∷ [])
  unfolding emplace Set.contains
  emplace-last k a [] ks d = refl
  emplace-last k a ((j, b) ∷ out) ks d =
      ground (arith, emplace-last k a out ks d.1, contains-middle j (keys out) k ks d.0)

  keys-append :
      (out : List (Text × A)) (k : Text) (a : A) (ks : List Text)
      → keys (out ++ ((k, a) ∷ [])) ++ ks ≡ keys out ++ (k ∷ ks)
  keys-append [] k a ks = refl
  keys-append ((j, b) ∷ out) k a ks = ap (λ js. j ∷ js) (keys-append out k a ks)

  append_entry :
      (out : List (Text × A)) (e : Text × A) (m : List (Text × A))
      → (out ++ (e ∷ [])) ++ m ≡ out ++ (e ∷ m)
  append_entry [] e m = refl
  append_entry (x ∷ out) e m = ap (λ xs. x ∷ xs) (append_entry out e m)

  append_none : (m : List (Text × A)) → m ++ [] ≡ m
  append_none [] = refl
  append_none (x ∷ m) = ap (λ xs. x ∷ xs) (append_none m)

  length-keys : (m : List (Text × A)) → length (keys m) ≡ length m
  length-keys [] = refl
  length-keys ((k, a) ∷ m) = ap suc (length-keys m)

  abbrev pub AllValues : (A → Type 0) → List (Text × A) → Type 0
  AllValues P [] = Unit
  AllValues P ((k, a) ∷ m) = P a × AllValues P m

pub all_unit : {A : Type 0} (m : List (Text × A)) → AllValues (λ _. Unit {0}) m
all_unit [] = tt
all_unit ((k, a) ∷ m) = (tt, all_unit m)

module _ {A B : Type 0} {P : A → Type 0} (f : Text → A → Decoded B) (g : Text → B → Decoded A)
    (undoes : (k : Text) (a : A) (b : B) → P a → f k a ≡ ok b → g k b ≡ ok a) where
  -- What a loop that succeeds adds: an entry with the same key for each entry.
  abbrev Added : List (Text × A) → List (Text × B) → List (Text × B) → Type 0
  Added m out result =
      (added : List (Text × B)) × (result ≡ out ++ added)
      × (keys added ≡ keys m)
      × ((back : List (Text × A))
          → AreDistinct (keys back ++ keys m)
          → emplace_each g added back ≡ ok (back ++ m))

  emplace_each-Added :
      (m : List (Text × A)) (out : List (Text × B)) {result : List (Text × B)}
      → AllValues P m
      → AreDistinct (keys out ++ keys m)
      → emplace_each f m out ≡ ok result
      → Added m out result
  unfolding emplace_each
  emplace_each-Added [] out p d e =
      ([], sym (ok_eq e) ∙ sym (append_none out), refl, λ back d. ap ok (sym (append_none back)))
  emplace_each-Added ((k, a) ∷ m) out p d e =
      let (b, eb, rest) = >>=-eq-ok (f k a) _ e in
      let (added, er, ek, undone) =
        emplace_each-Added m (emplace k b out) p.1
          (rw (emplace-last k b out (keys m) d, keys-append out k b (keys m)) d) rest in
      (
        (k, b) ∷ added,
        er ∙ ap (λ o. o ++ added) (emplace-last k b out (keys m) d) ∙ append_entry out (k, b) added,
        ap (λ ks. k ∷ ks) ek,
        λ back d'.
            rw
              (undoes k a b p.0 eb, emplace-last k a back (keys m) d', ← append_entry back (k, a) m)
              (undone (back ++ ((k, a) ∷ [])) (rw (keys-append back k a (keys m)) d')),
      )

  -- Where each entry is undone, the second loop gives back the map of the first.
  pub emplace_each-emplace_each :
      (m : List (Text × A)) {result : List (Text × B)}
      → AllValues P m
      → AreDistinct (keys m)
      → emplace_each f m [] ≡ ok result
      → (emplace_each g result [] ≡ ok m) × (length result ≡ length m)
  emplace_each-emplace_each m {result} p d e =
      let (added, er, ek, undone) = emplace_each-Added m [] p d e in
      (
        rw er (undone [] d),
        sym (length-keys result) ∙ ap (λ r. length (keys r)) er ∙ ap length ek ∙ length-keys m,
      )

abbrev pub AllEntries : {A : Type 0} → (Text → A → Type 0) → List (Text × A) → Type 0
AllEntries P [] = Unit
AllEntries P ((k, a) ∷ m) = P k a × AllEntries P m

module _ {B : Type 0} (P : Text → B → Type 0) where
  emplace-AllEntries :
      (k : Text) (b : B) (out : List (Text × B))
      → P k b
      → AllEntries P out
      → AllEntries P (emplace k b out)
  unfolding emplace
  emplace-AllEntries k b [] p all = (p, tt)
  emplace-AllEntries k b ((j, c) ∷ out) p all =
      let rest = emplace-AllEntries k b out p all.1 in ground arith

length-emplace :
    {B : Type 0} (k : Text) (b : B) (out : List (Text × B))
    → length (emplace k b out) ≤ suc (length out)
unfolding emplace
length-emplace k b [] = omega arith
length-emplace k b ((j, c) ∷ out) = ground (arith, length-emplace k b out)

-- What each entry is, with a bound on their number.
pub record AreEntries {B : Type 0} (P : Text → B → Type 0) (n : ℕ) (m : List (Text × B))
    : Type 0 where
  pub entries : AllEntries P m
  pub few : length m ≤ n

module _ {A B : Type 0} {P : Text → B → Type 0} (f : Text → A → Decoded B)
    (each : (k : Text) (a : A) → Ensures (P k) (f k a)) where
  pub emplace_each-AreEntries :
      (m : List (Text × A)) (out : List (Text × B)) {n : ℕ}
      → AllEntries P out
      → length out + length m ≤ n
      → Ensures (AreEntries P n) (emplace_each f m out)
  unfolding emplace_each
  emplace_each-AreEntries [] out all h = holds (record { entries = all; few = omega arith })
  emplace_each-AreEntries ((k, a) ∷ m) out all h = Ensures->>= (each k a) (λ b p.
      emplace_each-AreEntries m (emplace k b out) (emplace-AllEntries P k b out p all)
        (omega (arith, length-emplace k b out)))
