-- ===== src/Base/Results.antt =====
-- Outcomes of code that may stop: how C++ code that throws past `main`, reads what was never
-- written or calls `exit` ends.
use mathlib.Core.Path.{◌≡◌, refl}
use mathlib.Core.Option.{Option, none, some}
use mathlib.Core.Bool.{Bool, true, false}
use mathlib.Core.List.{List, [], ◌∷◌, ◌++◌}
use bomberrobots.Base.Tests.{if◌then◌else◌}

pub data Fault : Type 0 where
  -- `std::out_of_range`, thrown by `at` and caught by nobody
  out_of_range : Fault
  -- `MsgException`
  msg_exception : Fault
  -- `%` by zero
  division_by_zero : Fault
  -- a variable is read that was never written
  uninitialised : Fault
  -- an iterator is used after its element was erased
  invalid_iterator : Fault
  -- a loop went on past the fuel that it was given
  out_of_fuel : Fault
  -- a read waits for bytes that never come
  blocked : Fault
  -- an exception of Boost's that nobody catches
  system_error : Fault
  -- `exit_with_msg`
  exited : Fault

pub data Result {ℓ} (Value : Type ℓ) : Type ℓ where
  err : Fault → Result Value
  ok : Value → Result Value

-- What follows a call that fails is not run.
infixl 5 ◌>>=◌
abbrev pub ◌>>=◌ {ℓ κ} : {A : Type ℓ} {B : Type κ} → Result A → (A → Result B) → Result B
err fault >>= rest = err fault
ok value >>= rest = rest value

-- The value of `at`, which throws where there is none.
abbrev pub or_fail {ℓ} : {A : Type ℓ} → Option A → Fault → Result A
or_fail none e = err e
or_fail (some a) e = ok a

-- The code returns, and its result satisfies `P`.
abbrev pub Returns {ℓ} : {A : Type ℓ} → (A → Type 0) → Result A → Type 0
Returns P (ok a) = P a
Returns P (err e) = ⊥

pub Returns->>= {ℓ κ} :
    {A : Type ℓ} {B : Type κ} (P : A → Type 0) (Q : B → Type 0) (m : Result A) (f : A → Result B)
    → Returns P m
    → ((a : A) → P a → Returns Q (f a))
    → Returns Q (m >>= f)
Returns->>= P Q (ok a) f h k = k a h
Returns->>= P Q (err e) f h k = absurd h

pub Returns-ok {ℓ} :
    {A : Type ℓ} (P : A → Type 0) (m : Result A) → Returns P m → (a : A) × (m ≡ ok a) × P a
Returns-ok P (ok a) h = (a, refl, h)
Returns-ok P (err e) h = absurd h

pub Returns-mono {ℓ} :
    {A : Type ℓ} (P Q : A → Type 0) (m : Result A)
    → Returns P m
    → ((a : A) → P a → Q a)
    → Returns Q m
Returns-mono P Q (ok a) h f = f a h
Returns-mono P Q (err e) h f = h

pub Returns-if {ℓ} :
    {A : Type ℓ} (P : A → Type 0) (b : Bool) (x y : Result A)
    → (b ≡ true → Returns P x)
    → (b ≡ false → Returns P y)
    → Returns P (if b then x else y)
Returns-if P true x y f g = f refl
Returns-if P false x y f g = g refl

pub ok_inj {ℓ} : {A : Type ℓ} {a b : A} → ok a ≡ ok b → a ≡ b
ok_inj h = cc

pub ok->>= {ℓ κ} :
    {A : Type ℓ} {B : Type κ} (m : Result A) (f : A → Result B) (b : B)
    → m >>= f ≡ ok b
    → (a : A) × (m ≡ ok a) × (f a ≡ ok b)
ok->>= (ok a) f b h = (a, refl, h)
ok->>= (err e) f b h = absurd (cc)

-- An element at a time, in code that may fail.
abbrev pub each {ℓ κ} : {A : Type ℓ} {B : Type κ} → (B → A → Result A) → List B → A → Result A
each add [] acc = ok acc
each add (b ∷ bs) acc = add b acc >>= each add bs

-- The same in code that does not fail.
abbrev pub fold {ℓ κ} : {A : Type ℓ} {B : Type κ} → (B → A → A) → List B → A → A
fold add [] acc = acc
fold add (b ∷ bs) acc = fold add bs (add b acc)

pub fold_append {ℓ κ} :
    {A : Type ℓ} {B : Type κ} (add : B → A → A) (bs cs : List B) (acc : A)
    → fold add (bs ++ cs) acc ≡ fold add cs (fold add bs acc)
fold_append add [] cs acc = refl
fold_append add (b ∷ bs) cs acc = fold_append add bs cs (add b acc)

pub each-fold {ℓ κ} :
    {A : Type ℓ} {B : Type κ} (add : B → A → A) (bs : List B) (acc : A)
    → each (λ b acc'. ok (add b acc')) bs acc ≡ ok (fold add bs acc)
each-fold add [] acc = refl
each-fold add (b ∷ bs) acc = each-fold add bs (add b acc)

-- If the code returns, its result satisfies `P`.
abbrev pub Ensures {ℓ} : {A : Type ℓ} → (A → Type 0) → Result A → Type 0
Ensures P (ok a) = P a
Ensures P (err e) = Unit

pub Ensures->>= {ℓ κ} :
    {A : Type ℓ} {B : Type κ} (P : A → Type 0) (Q : B → Type 0) (m : Result A) (f : A → Result B)
    → Ensures P m
    → ((a : A) → P a → Ensures Q (f a))
    → Ensures Q (m >>= f)
Ensures->>= P Q (ok a) f h k = k a h
Ensures->>= P Q (err e) f h k = tt

-- Nothing is asked of the first part.
pub Ensures-after {ℓ κ} :
    {A : Type ℓ} {B : Type κ} (Q : B → Type 0) (m : Result A) (f : A → Result B)
    → ((a : A) → Ensures Q (f a))
    → Ensures Q (m >>= f)
Ensures-after Q (ok a) f k = k a
Ensures-after Q (err e) f k = tt

pub Ensures-if {ℓ} :
    {A : Type ℓ} (P : A → Type 0) (b : Bool) (x y : Result A)
    → (b ≡ true → Ensures P x)
    → (b ≡ false → Ensures P y)
    → Ensures P (if b then x else y)
Ensures-if P true x y f g = f refl
Ensures-if P false x y f g = g refl

pub Ensures-mono {ℓ} :
    {A : Type ℓ} (P Q : A → Type 0) (m : Result A)
    → Ensures P m
    → ((a : A) → P a → Q a)
    → Ensures Q m
Ensures-mono P Q (ok a) h f = f a h
Ensures-mono P Q (err e) h f = tt

pub Ensures-Returns {ℓ} : {A : Type ℓ} (P : A → Type 0) (m : Result A) → Returns P m → Ensures P m
Ensures-Returns P (ok a) h = h
Ensures-Returns P (err e) h = tt

pub Ensures-both {ℓ} :
    {A : Type ℓ} (P Q R : A → Type 0) (m : Result A)
    → Ensures P m
    → Ensures Q m
    → ((a : A) → P a → Q a → R a)
    → Ensures R m
Ensures-both P Q R (ok a) h k f = f a h k
Ensures-both P Q R (err e) h k f = tt

-- Code that returns, and what it ensures.
pub Returns-Ensures {ℓ} :
    {A : Type ℓ} (P Q R : A → Type 0) (m : Result A)
    → Returns P m
    → Ensures Q m
    → ((a : A) → P a → Q a → R a)
    → Returns R m
Returns-Ensures P Q R (ok a) h k f = f a h k
Returns-Ensures P Q R (err e) h k f = absurd h
