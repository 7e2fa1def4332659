-- ===== src/Transports/Codec/Reads.antt =====
-- The field readers find what was put.
use mathlib.Core.Option
use rmc_fabric.Base.{
  ℕ, suc, ◌<◌, ◌^◌, ◌≡◌, refl, ap, Text, text_discrete, text_lt, Bool, true, false, List, [], ◌∷◌,
  ◌++◌, Option, none, some, leb, map, arith,
}
use rmc_fabric.Base.Result.{ok, require, >>-eq-ok}
use rmc_fabric.Containers.Map
use rmc_fabric.Containers.Set
use rmc_fabric.Model.Types.{text_ordered}
use rmc_fabric.Transports.Variant.{Variant, VariantMap, IsVariant, DataType}
use rmc_fabric.Transports.Codec.Checks.{
  DecodeErrorCode, length, max_string_set_entries, validate_key, validate_string, validate_optional,
  validate_strings, validate_string_set, require_field, has_type, string_of, require_string,
  optional_string, require_bool, require_int32, collect, require_string_set,
}

-- Above `x` in the order of `std::set`.
abbrev pub IsAbove : Text → List Text → Type 0
IsAbove x [] = Unit
IsAbove x (y ∷ ys) = (text_lt x y ≡ true) × IsAbove x ys

-- Strictly increasing, as the elements of a `std::set` are.
abbrev pub IsSorted : List Text → Type 0
IsSorted [] = Unit
IsSorted (x ∷ xs) = IsAbove x xs × IsSorted xs

text_lt_irrefl : (s : Text) → text_lt s s ≡ false
unfolding text_lt
text_lt_irrefl [] = refl
text_lt_irrefl (c ∷ s) = ground (arith, text_lt_irrefl s)

text_lt_asym : (s t : Text) → text_lt s t ≡ true → text_lt t s ≡ false
unfolding text_lt
text_lt_asym [] [] h = refl
text_lt_asym [] (d ∷ t) h = refl
text_lt_asym (c ∷ s) [] h = cc
text_lt_asym (c ∷ s) (d ∷ t) h = ground (arith, text_lt_asym s t)

IsAbove-middle :
    (x : Text) (ys : List Text) (a : Text) (zs : List Text)
    → IsAbove x (ys ++ (a ∷ zs))
    → text_lt x a ≡ true
IsAbove-middle x [] a zs h = h.0
IsAbove-middle x (y ∷ ys) a zs h = IsAbove-middle x ys a zs h.1

insert-last :
    (out : List Text) (a : Text) (s : List Text)
    → IsSorted (out ++ (a ∷ s))
    → Set.insert a out ≡ out ++ (a ∷ [])
unfolding Set.insert
insert-last [] a s h = refl
insert-last (x ∷ out) a s h =
    let below = IsAbove-middle x out a s h.0 in
    ground (arith, insert-last out a s h.1, text_lt_irrefl a, text_lt_asym x a below)

append_middle :
    (out : List Text) (a : Text) (s : List Text) → (out ++ (a ∷ [])) ++ s ≡ out ++ (a ∷ s)
append_middle [] a s = refl
append_middle (x ∷ out) a s = ap (λ xs. x ∷ xs) (append_middle out a s)

append_nil : (xs : List Text) → xs ++ [] ≡ xs
append_nil [] = refl
append_nil (x ∷ xs) = ap (λ ys. x ∷ ys) (append_nil xs)

length-map_strings {ℓ} : {A B : Type ℓ} (f : A → B) (xs : List A) → length (map f xs) ≡ length xs
length-map_strings f [] = refl
length-map_strings f (x ∷ xs) = ap suc (length-map_strings f xs)

module _ {V : Type 0} ⦃v : Variant V⦄ (laws : IsVariant v) where
  has_type-eq : (t : DataType) (field : V) → v.data_type field ≡ t → has_type t field ≡ ok tt
  unfolding has_type
  has_type-eq t field e = ground arith

  pub string_of-of_string :
      (s : Text) → validate_string s ≡ ok tt → string_of (v.of_string s) ≡ ok s
  unfolding string_of
  string_of-of_string s h =
      rw
        (
          has_type-eq DataType.string (v.of_string s) (laws.data_type-of_string s),
          laws.to_string-of_string s,
          h,
        )
        refl

  collect-strings :
      (s out : List Text)
      → IsSorted (out ++ s)
      → validate_strings s ≡ ok tt
      → collect (map v.of_string s) out ≡ ok (out ++ s)
  unfolding collect validate_strings
  collect-strings [] out h e = rw (append_nil out) refl
  collect-strings (a ∷ s) out h e =
      let (ea, es) = >>-eq-ok (validate_string a) (validate_strings s) e in
      rw (string_of-of_string a ea, insert-last out a s h, ← append_middle out a s)
        (collect-strings s (out ++ (a ∷ [])) (rw (append_middle out a s) h) es)

module _ {V : Type 0} ⦃v : Variant V⦄ (laws : IsVariant v) (m : VariantMap V) (key : Text) where
  pub require_string-found :
      {s : Text}
      → validate_key key ≡ ok tt
      → Map.lookup text_discrete key m ≡ some (v.of_string s)
      → validate_string s ≡ ok tt
      → require_string m key ≡ ok s
  unfolding require_string require_field
  require_string-found {s} k e h = rw (k, e) (string_of-of_string laws s h)

  pub require_bool-found :
      {b : Bool}
      → validate_key key ≡ ok tt
      → Map.lookup text_discrete key m ≡ some (v.of_bool b)
      → require_bool m key ≡ ok b
  unfolding require_bool require_field
  require_bool-found {b} k e =
      rw
        (
          k,
          e,
          has_type-eq laws DataType.boolean (v.of_bool b) (laws.data_type-of_bool b),
          laws.to_bool-of_bool b,
        )
        refl

  pub require_int32-found :
      {n : ℕ}
      → validate_key key ≡ ok tt
      → Map.lookup text_discrete key m ≡ some (v.of_int32 n)
      → n < 2 ^ 32
      → require_int32 m key ≡ ok n
  unfolding require_int32 require_field
  require_int32-found {n} k e h =
      rw
        (
          k,
          e,
          has_type-eq laws DataType.int32 (v.of_int32 n) (laws.data_type-of_int32 n),
          laws.to_int32-of_int32 n h,
        )
        refl

  pub optional_string-found :
      (o : Option Text)
      → Map.lookup text_discrete key m ≡ Option.map v.of_string o
      → validate_optional o ≡ ok tt
      → optional_string m key ≡ ok o
  unfolding optional_string validate_optional
  optional_string-found none e h = rw e refl
  optional_string-found (some s) e h = rw (e, string_of-of_string laws s h) refl

  pub require_string_set-found :
      {s : List Text}
      → validate_key key ≡ ok tt
      → Map.lookup text_discrete key m ≡ some (v.of_vector (map v.of_string s))
      → validate_string_set s ≡ ok tt
      → IsSorted s
      → require_string_set m key ≡ ok s
  unfolding require_string_set require_field validate_string_set
  require_string_set-found {s} k e h sorted =
      let (few, valid) =
        >>-eq-ok (require (leb (length s) max_string_set_entries) DecodeErrorCode.limit_exceeded)
          (validate_strings s) h in
      rw (k, e, laws.to_vector-of_vector (map v.of_string s), length-map_strings v.of_string s, few)
        (collect-strings laws s [] sorted valid)
