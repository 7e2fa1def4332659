-- ===== src/Transports/Codec/Limits.antt =====
-- What is decoded can be encoded again: it keeps within the limits, and its sets are in order.
use rmc_fabric.Base.{
  ◌≡◌, refl, ◌≢◌, Text, ℕ, ◌+◌, ◌≤◌, suc, List, [], ◌∷◌, Option, none, some, leb, true, false,
  arith, text_discrete, text_lt,
}
use rmc_fabric.Base.Result.{
  ok, require, Ensures, holds, Ensures->>=, >>-eq-ok, require-eq-ok, Ensures-weaken, anything,
  checked,
}
use rmc_fabric.Containers.Set
use rmc_fabric.Containers.Map
use rmc_fabric.Model.Types.{text_ordered}
use rmc_fabric.Transports.Variant.{Variant, VariantMap, DataType}
use rmc_fabric.Transports.Codec.Checks.{
  DecodeErrorCode, length, max_string_set_entries, validate_key, validate_string, validate_optional,
  validate_strings, validate_string_set, has_type, string_of, optional_of, optional_string,
  require_field, require_string, vector_of, collect, require_string_set,
}
use rmc_fabric.Transports.Codec.Reads.{IsAbove, IsSorted}

text_lt_trans : (s t u : Text) → text_lt s t ≡ true → text_lt t u ≡ true → text_lt s u ≡ true
unfolding text_lt
text_lt_trans [] (d ∷ t) (e ∷ u) h k = refl
text_lt_trans (c ∷ s) (d ∷ t) (e ∷ u) h k = ground (arith, text_lt_trans s t u)
text_lt_trans [] [] u h k = cc
text_lt_trans (c ∷ s) [] u h k = cc
text_lt_trans s (d ∷ t) [] h k = cc

text_lt-total : (s t : Text) → s ≢ t → text_lt s t ≡ false → text_lt t s ≡ true
unfolding text_lt
text_lt-total [] [] n h = absurd (n refl)
text_lt-total [] (d ∷ t) n h = cc
text_lt-total (c ∷ s) [] n h = refl
text_lt-total (c ∷ s) (d ∷ t) n h = ground (arith, text_lt-total s t)

IsAbove-trans : (a x : Text) (xs : List Text) → text_lt a x ≡ true → IsAbove x xs → IsAbove a xs
IsAbove-trans a x [] h k = tt
IsAbove-trans a x (y ∷ ys) h k = (text_lt_trans a x y h k.0, IsAbove-trans a x ys h k.1)

IsAbove-insert :
    (y a : Text) (s : List Text) → text_lt y a ≡ true → IsAbove y s → IsAbove y (Set.insert a s)
unfolding Set.insert
IsAbove-insert y a [] h k = (h, tt)
IsAbove-insert y a (x ∷ xs) h k = ground (arith, IsAbove-insert y a xs h k.1)

pub insert-IsSorted : (a : Text) (s : List Text) → IsSorted s → IsSorted (Set.insert a s)
unfolding Set.insert
insert-IsSorted a [] h = (tt, tt)
insert-IsSorted a (x ∷ xs) h = ground (
  arith,
  insert-IsSorted a xs h.1,
  IsAbove-trans a x xs,
  IsAbove-insert x a xs,
  text_lt-total a x,
)

length-insert : (a : Text) (s : List Text) → length (Set.insert a s) ≤ suc (length s)
unfolding Set.insert
length-insert a [] = omega arith
length-insert a (x ∷ xs) = ground (arith, length-insert a xs)

validate_strings-insert :
    (a : Text) (s : List Text)
    → validate_string a ≡ ok tt
    → validate_strings s ≡ ok tt
    → validate_strings (Set.insert a s) ≡ ok tt
unfolding Set.insert validate_strings
validate_strings-insert a [] h k = rw h refl
validate_strings-insert a (x ∷ xs) h k =
    let (kx, ks) = >>-eq-ok (validate_string x) (validate_strings xs) k in
    let rest = validate_strings-insert a xs h ks in ground arith

-- What `requireStringSet` returns.
pub record IsValidSet (s : List Text) : Type 0 where
  pub valid : validate_string_set s ≡ ok tt
  pub sorted : IsSorted s

abbrev AreCollected : ℕ → List Text → Type 0
AreCollected n s = (validate_strings s ≡ ok tt) × IsSorted s × (length s ≤ n)

within : (s : List Text) → AreCollected max_string_set_entries s → IsValidSet s
unfolding validate_string_set
within s c =
    let small : leb (length s) max_string_set_entries ≡ true = ground (arith, c.2) in
    record { valid = rw (small) c.0; sorted = c.1 }

module _ {V : Type 0} ⦃v : Variant V⦄ where
  string_of-valid : (field : V) → Ensures (λ s. validate_string s ≡ ok tt) (string_of field)
  unfolding string_of
  string_of-valid field =
      checked (has_type DataType.string field) _
        (λ _. checked (validate_string (v.to_string field)) _ (λ h. holds h))

  pub require_string-valid :
      (m : VariantMap V) (key : Text)
      → Ensures (λ s. validate_string s ≡ ok tt) (require_string m key)
  unfolding require_string
  require_string-valid m key =
      checked (validate_key key) _
        (λ _. Ensures->>= (anything (require_field m key)) (λ field _. string_of-valid field))

  optional_of-valid : (o : Option V) → Ensures (λ s. validate_optional s ≡ ok tt) (optional_of o)
  unfolding validate_optional
  optional_of-valid none = holds refl
  optional_of-valid (some field) = Ensures->>= (string_of-valid field) (λ s h. holds h)

  pub optional_string-valid :
      (m : VariantMap V) (key : Text)
      → Ensures (λ s. validate_optional s ≡ ok tt) (optional_string m key)
  unfolding optional_string
  optional_string-valid m key = optional_of-valid (Map.lookup text_discrete key m)

  collect-AreCollected :
      (values : List V) (out : List Text) {n : ℕ}
      → validate_strings out ≡ ok tt
      → IsSorted out
      → length out + length values ≤ n
      → Ensures (AreCollected n) (collect values out)
  unfolding collect
  collect-AreCollected [] out valid sorted h = holds (valid, sorted, omega arith)
  collect-AreCollected (value ∷ values) out valid sorted h =
      Ensures->>= (string_of-valid value) (λ item e.
        collect-AreCollected values (Set.insert item out) (validate_strings-insert item out e valid)
          (insert-IsSorted item out sorted) (omega (arith, length-insert item out)))

  collect-IsValidSet :
      (values : List V)
      → leb (length values) max_string_set_entries ≡ true
      → Ensures IsValidSet (collect values [])
  unfolding validate_strings
  collect-IsValidSet values few =
      Ensures-weaken (collect-AreCollected values [] refl tt (ground arith)) within

  pub require_string_set-IsValidSet :
      (m : VariantMap V) (key : Text) → Ensures IsValidSet (require_string_set m key)
  unfolding require_string_set
  require_string_set-IsValidSet m key = checked (validate_key key) _ (λ _.
      Ensures->>= (anything (require_field m key)) (λ field _.
        Ensures->>= (anything (vector_of (v.to_vector field))) (λ values _.
          checked
            (require (leb (length values) max_string_set_entries) DecodeErrorCode.limit_exceeded) _
            (λ few.
              collect-IsValidSet values (require-eq-ok _ DecodeErrorCode.limit_exceeded few)))))
