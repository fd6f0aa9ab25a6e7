-- ===== src/Base/Effects.antt =====
-- How a call ends, semaphores, and heaps of objects reached through pointers.
use Prim.Native.Nat.{ℕ, zero, suc}
use mathlib.Core.Path.{◌≡◌, refl, sym, subst}
use mathlib.Core.Bool.{Bool, true, false}
use mathlib.Core.Option.{Option, none, some}
use server_unit.Base.Tests.{◌==◌, if◌then◌else◌}

-- `blocked`: the thread waits on a semaphore that nobody posts, or loops for ever.
-- `fault`: undefined behaviour, such as a null or dangling pointer, or an index out of range.
pub data Outcome {ℓ} (A : Type ℓ) : Type ℓ where
  done : A → Outcome A
  blocked : Outcome A
  fault : Outcome A

infixl 5 ◌>>=◌
abbrev pub ◌>>=◌ {ℓ κ} : {A : Type ℓ} {B : Type κ} → Outcome A → (A → Outcome B) → Outcome B
done a >>= f = f a
blocked >>= f = blocked
fault >>= f = fault

pub >>=-eq-done {ℓ κ} :
    {A : Type ℓ} {B : Type κ} (m : Outcome A) (f : A → Outcome B) {b : B}
    → (m >>= f) ≡ done b
    → (a : A) × (m ≡ done a) × (f a ≡ done b)
>>=-eq-done (done a) f h = (a, refl, h)
>>=-eq-done blocked f h = cc
>>=-eq-done fault f h = cc

-- `sem_wait` and `sem_post` on the value of a semaphore.
abbrev pub sem_wait : ℕ → Outcome ℕ
sem_wait zero = blocked
sem_wait (suc n) = done n

abbrev pub sem_post : ℕ → ℕ
sem_post n = suc n

-- The live objects of one type, by address. Address 0 is NULL and holds no object.
abbrev pub Heap {ℓ} : Type ℓ → Type ℓ
Heap A = ℕ → Option A

abbrev pub load {ℓ} : {A : Type ℓ} → Heap A → ℕ → Outcome A
load h p = elim (h p) [ none ↦ fault | some a ↦ done a ]

abbrev pub update {ℓ} : {A : Type ℓ} → Heap A → ℕ → Option A → Heap A
update h p v q = if p == q then v else h q

-- A conversion that throws where there is no value, and nobody catches it.
abbrev pub get_value {ℓ} : {A : Type ℓ} → Option A → Outcome A
get_value none = fault
get_value (some a) = done a

-- The call returns, and its result satisfies `P`.
abbrev pub Returns {ℓ} : {A : Type ℓ} → (A → Type 0) → Outcome A → Type 0
Returns P (done a) = P a
Returns P blocked = ⊥
Returns P fault = ⊥

pub Returns-bind {ℓ κ} :
    {A : Type ℓ} {B : Type κ} (P : A → Type 0) (Q : B → Type 0) (m : Outcome A) (f : A → Outcome B)
    → Returns P m
    → ((a : A) → P a → Returns Q (f a))
    → Returns Q (m >>= f)
Returns-bind P Q (done a) f h k = k a h
Returns-bind P Q blocked f h k = h
Returns-bind P Q fault f h k = h

pub Returns-eq {ℓ} :
    {A : Type ℓ} (P : A → Type 0) (m : Outcome A) → Returns P m → (a : A) × (m ≡ done a) × P a
Returns-eq P (done a) h = (a, refl, h)
Returns-eq P blocked h = absurd h
Returns-eq P fault h = absurd h

pub Returns-of_eq {ℓ} :
    {A : Type ℓ} (P : A → Type 0) (m : Outcome A) {a : A} → m ≡ done a → P a → Returns P m
Returns-of_eq P m e p = subst (Returns P) (sym e) p

pub Returns-weaken {ℓ} :
    {A : Type ℓ} (P Q : A → Type 0) (m : Outcome A)
    → Returns P m
    → ((a : A) → P a → Q a)
    → Returns Q m
Returns-weaken P Q (done a) h k = k a h
Returns-weaken P Q blocked h k = h
Returns-weaken P Q fault h k = h

-- The result, if the call returns, satisfies `P`.
abbrev pub WhenDone {ℓ} : {A : Type ℓ} → (A → Type 0) → Outcome A → Type 0
WhenDone P (done a) = P a
WhenDone P blocked = Unit
WhenDone P fault = Unit

pub WhenDone-bind {ℓ κ} :
    {A : Type ℓ} {B : Type κ} (P : A → Type 0) (Q : B → Type 0) (m : Outcome A) (f : A → Outcome B)
    → WhenDone P m
    → ((a : A) → P a → WhenDone Q (f a))
    → WhenDone Q (m >>= f)
WhenDone-bind P Q (done a) f h k = k a h
WhenDone-bind P Q blocked f h k = tt
WhenDone-bind P Q fault f h k = tt

-- The first call does not matter.
pub WhenDone-then {ℓ κ} :
    {A : Type ℓ} {B : Type κ} (Q : B → Type 0) (m : Outcome A) (f : A → Outcome B)
    → ((a : A) → WhenDone Q (f a))
    → WhenDone Q (m >>= f)
WhenDone-then Q (done a) f k = k a
WhenDone-then Q blocked f k = tt
WhenDone-then Q fault f k = tt

pub WhenDone-if {ℓ} :
    {A : Type ℓ} (P : A → Type 0) (b : Bool) (m n : Outcome A)
    → WhenDone P m
    → WhenDone P n
    → WhenDone P (if b then m else n)
WhenDone-if P true m n h k = h
WhenDone-if P false m n h k = k

pub WhenDone-weaken {ℓ} :
    {A : Type ℓ} (P Q : A → Type 0) (m : Outcome A)
    → WhenDone P m
    → ((a : A) → P a → Q a)
    → WhenDone Q m
WhenDone-weaken P Q (done a) h k = k a h
WhenDone-weaken P Q blocked h k = tt
WhenDone-weaken P Q fault h k = tt

pub WhenDone-option {ℓ κ} :
    {A : Type ℓ} {B : Type κ} (P : B → Type 0) (o : Option A) (m : Outcome B) (f : A → Outcome B)
    → WhenDone P m
    → ((a : A) → WhenDone P (f a))
    → WhenDone P (elim o [ none ↦ m | some a ↦ f a ])
WhenDone-option P none m f h k = h
WhenDone-option P (some a) m f h k = k a
