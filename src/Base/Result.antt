-- ===== src/Base/Result.antt =====
-- A call that may throw `E`.
use mathlib.Core.Path.{◌≡◌, refl, subst}
use mathlib.Core.Bool.{Bool, true, false}

pub data Result {ℓ κ} (E : Type κ) (A : Type ℓ) : Type (ℓ ⊔ κ) where
  err : E → Result E A
  ok : A → Result E A

infixl 5 ◌>>=◌ ◌>>◌
abbrev pub ◌>>=◌ {ℓ κ} :
    {E : Type 0} {A : Type ℓ} {B : Type κ} → Result E A → (A → Result E B) → Result E B
err thrown >>= next = err thrown
ok returned >>= next = next returned

-- `call; next`, where the call returns nothing.
abbrev pub ◌>>◌ {ℓ} : {E : Type 0} {B : Type ℓ} → Result E (Unit {0}) → Result E B → Result E B
err thrown >> next = err thrown
ok tt >> next = next

-- `if (!test) throw e;`
abbrev pub require : {E : Type 0} → Bool → E → Result E (Unit {0})
require false e = err e
require true e = ok tt

pub require-eq-ok : {E : Type 0} (b : Bool) (e : E) {u : Unit {0}} → require b e ≡ ok u → b ≡ true
require-eq-ok false e h = cc
require-eq-ok true e h = refl

pub ok_eq {ℓ} : {E : Type 0} {A : Type ℓ} {a b : A} → ◌≡◌ {A = Result E A} (ok a) (ok b) → a ≡ b
ok_eq h = cc

-- A chain that returns has a first call that returns.
pub >>-eq-ok {ℓ} :
    {E : Type 0} {B : Type ℓ} {b : B} (call : Result E (Unit {0})) (next : Result E B)
    → (call >> next) ≡ ok b
    → (call ≡ ok tt) × (next ≡ ok b)
>>-eq-ok (err thrown) next h = cc
>>-eq-ok (ok tt) next h = (refl, h)

pub >>=-eq-ok {ℓ κ} :
    {E : Type 0} {B : Type κ} {b : B} {A : Type ℓ} (call : Result E A) (next : A → Result E B)
    → (call >>= next) ≡ ok b
    → (returned : A) × (call ≡ ok returned) × (next returned ≡ ok b)
>>=-eq-ok (err thrown) next h = cc
>>=-eq-ok (ok returned) next h = (returned, refl, h)

-- Where a call returns, `P` holds of what it returns.
pub data Ensures {ℓ κ} {E : Type 0} {A : Type ℓ} (P : A → Type κ) : Result E A → Type (ℓ ⊔ κ) where
  thrown : {e : E} → Ensures P (err e)
  holds : {a : A} → P a → Ensures P (ok a)

pub Ensures-ok {ℓ κ} :
    {A : Type ℓ} {E : Type 0} {P : A → Type κ} {call : Result E A} {a : A}
    → call ≡ ok a
    → Ensures P call
    → P a
Ensures-ok h thrown = cc
Ensures-ok {P} h (holds p) = subst P (cc) p

pub Ensures->>= {ℓ ℓ' κ κ'} :
    {A : Type ℓ} {B : Type ℓ'} {E : Type 0} {Q : B → Type κ'} {P : A → Type κ} {call : Result E A}
    {next : A → Result E B}
    → Ensures P call
    → ((a : A) → P a → Ensures Q (next a))
    → Ensures Q (call >>= next)
Ensures->>= thrown k = thrown
Ensures->>= (holds {a} p) k = k a p

-- Nothing is said of what is returned.
pub anything {ℓ} : {E : Type 0} {A : Type ℓ} (m : Result E A) → Ensures (λ _. Unit {0}) m
anything (ok a) = holds tt
anything (err e) = thrown

pub checked {ℓ κ} :
    {E : Type 0} {A : Type ℓ} {P : A → Type κ} (m : Result E (Unit {0})) (k : Result E A)
    → (m ≡ ok tt → Ensures P k)
    → Ensures P (m >> k)
checked (ok tt) k h = h refl
checked (err e) k h = thrown

pub Ensures-weaken {ℓ κ κ'} :
    {E : Type 0} {A : Type ℓ} {P : A → Type κ} {Q : A → Type κ'} {m : Result E A}
    → Ensures P m
    → ((a : A) → P a → Q a)
    → Ensures Q m
Ensures-weaken (holds {a} p) h = holds (h a p)
Ensures-weaken thrown h = thrown
