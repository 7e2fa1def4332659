-- ===== src/Containers/Set.antt =====
-- `std::set`: its elements in increasing order, with the operations that the code calls.
use rmc_fabric.Base.{
  ◌≡◌, refl, ite, Bool, true, false, List, [], ◌∷◌, if◌then◌else◌, arith, is_empty,
}

-- `operator==` and `operator<` of the elements.
pub record Ordered (A : Type 0) : Type 0 where
  pub dec : Discrete A
  pub lt : A → A → Bool

module _ {A : Type 0} ⦃o : Ordered A⦄ where
  -- `s.contains(a)`
  unfoldable pub contains : A → List A → Bool
  contains a [] = false
  contains a (x ∷ xs) = ite (o.dec x a) true (contains a xs)

  -- `s.insert(a)`: nothing changes if the element is there.
  unfoldable pub insert : A → List A → List A
  insert a [] = a ∷ []
  insert a (x ∷ xs) = ite (o.dec x a) (x ∷ xs) (if o.lt a x then a ∷ x ∷ xs else (x ∷ insert a xs))

  -- `s.erase(a)`
  unfoldable pub erase : A → List A → List A
  erase a [] = []
  erase a (x ∷ xs) = ite (o.dec x a) (erase a xs) (x ∷ erase a xs)

  pub contains-insert :
      (b a : A) (s : List A) → contains b (insert a s) ≡ ite (o.dec a b) true (contains b s)
  unfolding contains insert
  contains-insert b a [] = refl
  contains-insert b a (x ∷ xs) = ground (arith, contains-insert b a xs)

  pub contains-erase :
      (b a : A) (s : List A) → contains b (erase a s) ≡ ite (o.dec a b) false (contains b s)
  unfolding contains erase
  contains-erase b a [] = ground arith
  contains-erase b a (x ∷ xs) = ground (arith, contains-erase b a xs)

  pub contains-insert_self : (a : A) (s : List A) → contains a (insert a s) ≡ true
  contains-insert_self a s = ground (arith, contains-insert a a s)

  -- A second insertion of the same element changes nothing.
  pub insert-insert : (a : A) (s : List A) → insert a (insert a s) ≡ insert a s
  unfolding insert
  insert-insert a [] = ground arith
  insert-insert a (x ∷ xs) = ground (arith, insert-insert a xs)

  pub is_empty-insert : (a : A) (s : List A) → is_empty (insert a s) ≡ false
  unfolding insert
  is_empty-insert a [] = refl
  is_empty-insert a (x ∷ xs) = ground arith
