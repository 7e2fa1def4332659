-- ===== src/Model/LocalState/Refcounts.antt =====
-- incrementMac, decrementMac, incrementIp and decrementIp of LocalStateTracker.cpp: a count for each
-- owned address, and the set of the addresses whose count is above zero.
use rmc_fabric.Base.{
  ℕ, ◌+◌, ◌-◌, ◌≡◌, Text, text_discrete, if◌then◌else◌, ite, ◌==◌, ltb, List, [], Option, none,
  some, arith,
}
use rmc_fabric.Containers.Set
use rmc_fabric.Containers.Map
use rmc_fabric.Model.Types.{text_ordered}

pub record Counts : Type 0 where
  pub refcount : List (Text × ℕ)
  pub members : List Text

abbrev pub no_counts : Counts
no_counts = record { refcount = []; members = [] }

abbrev count_of : Option ℕ → ℕ
count_of none = 0
count_of (some n) = n

-- `if (++refcount[key] == 1) members.insert(key);`
unfoldable pub increment : Text → Counts → Counts
increment key c =
    let n = count_of (Map.lookup text_discrete key c.refcount) + 1 in
    record {
      refcount = Map.insert text_discrete key n c.refcount;
      members = if n == 1 then Set.insert key c.members else c.members;
    }

-- `if (--it->second == 0)`: a stored count is at least one.
unfoldable pub decrement : Text → Counts → Counts
decrement key c = elim (Map.lookup text_discrete key c.refcount) [
  | none ↦ c
  | some n ↦
      if n == 1
      then record {
        refcount = Map.erase text_discrete key c.refcount;
        members = Set.erase key c.members;
      }
      else record c { refcount = Map.insert text_discrete key (n - 1) c.refcount }
]

abbrev stored : ℕ → Option ℕ
stored n = if n == 0 then none else some n

-- The counts are those of `f`: a key of count zero is not stored, and the set holds the others.
pub record Tracks (c : Counts) (f : Text → ℕ) : Type 0 where
  pub counted : (k : Text) → Map.lookup text_discrete k c.refcount ≡ stored (f k)
  pub owned : (k : Text) → Set.contains k c.members ≡ ltb 0 (f k)

abbrev pub one_if : Text → Text → ℕ
one_if key k = ite (text_discrete key k) 1 0

pub no_counts-Tracks : (f : Text → ℕ) → ((k : Text) → f k ≡ 0) → Tracks no_counts f
unfolding Map.lookup Set.contains
no_counts-Tracks f z = record {
  counted = λ k. ground (arith, z k);
  owned = λ k. ground (arith, z k);
}

pub Tracks-eq : {c : Counts} {f g : Text → ℕ} → Tracks c f → ((k : Text) → f k ≡ g k) → Tracks c g
Tracks-eq t e = record {
  counted = λ k. ground (arith, t.counted k, e k);
  owned = λ k. ground (arith, t.owned k, e k);
}

module _ (key : Text) {c : Counts} {f : Text → ℕ} (t : Tracks c f) where
  pub increment-Tracks : Tracks (increment key c) (λ k. f k + one_if key k)
  unfolding increment
  increment-Tracks = record {
    counted = λ k. ground (
      arith,
      t.counted k,
      t.counted key,
      Map.lookup-insert text_discrete k key (f key + 1) c.refcount,
    );
    owned = λ k. ground (arith, t.counted key, t.owned k, Set.contains-insert k key c.members);
  }

  pub decrement-Tracks : Tracks (decrement key c) (λ k. f k - one_if key k)
  unfolding decrement
  decrement-Tracks = record {
    counted = λ k. ground (
      arith,
      t.counted k,
      t.counted key,
      Map.lookup-insert text_discrete k key (f key - 1) c.refcount,
      Map.lookup-erase text_discrete k key c.refcount,
    );
    owned = λ k. ground (arith, t.counted key, t.owned k, Set.contains-erase k key c.members);
  }
