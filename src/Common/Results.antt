-- ===== src/Common/Results.antt =====
-- What a call can come to: src/include/debug/asserts.h, and the exceptions that the program throws.
use mathlib.Core.Path.{◌≡◌, refl}
use mathlib.Core.Bool.{Bool, true, false}
use mathlib.Core.Option.{Option}
use Prim.Native.Nat.{ℕ}
use mathlib.Core.Logic.{◌⊎◌, inl, inr}

-- What a `config_exception` says.
pub data Complaint : Type 0 where
  cannot_open no_section duplicate_entry section_redefinition invalid_line : Complaint
  not_present invalid_value unknown_attribute : Complaint

-- The exceptions of the modelled code, `std` ones included.
pub data Exception : Type 0 where
  bad_alloc out_of_ram_memory out_of_total_memory : Exception
  out_of_session_ram_memory out_of_session_total_memory : Exception
  out_of_range read_error write_error runtime_error io_exception : Exception
  config_exception : (line_no : Option ℕ) → Complaint → Exception

-- `aborts` is a failed `d_assert` or `r_assert`, as built without NDEBUG. `faults` is undefined
-- behaviour, such as a read through a dangling pointer.
pub data Outcome {ℓ} (A : Type ℓ) : Type ℓ where
  ok : A → Outcome A
  throws : Exception → Outcome A
  aborts : Outcome A
  faults : Outcome A

infixl 5 ◌>>=◌ ◌>>◌
abbrev pub ◌>>=◌ {ℓ κ} : {A : Type ℓ} {B : Type κ} → Outcome A → (A → Outcome B) → Outcome B
aborts >>= f = aborts
faults >>= f = faults
throws e >>= f = throws e
ok a >>= f = f a

-- The second call, if the first one returns.
abbrev pub ◌>>◌ {ℓ} : {A : Type ℓ} → Outcome (Unit {0}) → Outcome A → Outcome A
first >> next = first >>= λ _. next

-- `d_assert(x)` and `r_assert(x)`.
abbrev pub assert : Bool → Outcome (Unit {0})
assert true = ok tt
assert false = aborts

-- `if (!x) throw e`
abbrev pub throw_unless : Bool → Exception → Outcome (Unit {0})
throw_unless true e = ok tt
throw_unless false e = throws e

pub data Never {κ} : Type κ where

-- The call ends, by a value with `P` or an exception with `E`: it neither aborts nor faults.
abbrev pub Ends {ℓ κ} : {A : Type ℓ} → (A → Type κ) → (Exception → Type κ) → Outcome A → Type κ
Ends P E (ok a) = P a
Ends P E (throws e) = E e
Ends P E aborts = Never
Ends P E faults = Never

-- The one exception of code that only allocates.
abbrev pub OnlyBadAlloc : Exception → Type 0
OnlyBadAlloc e = e ≡ Exception.bad_alloc

pub Ends->>= {ℓ ℓ' κ} :
    {A : Type ℓ} {B : Type ℓ'} (P : A → Type κ) (Q : B → Type κ) (E : Exception → Type κ)
    (m : Outcome A) (f : A → Outcome B)
    → Ends P E m
    → ((a : A) → P a → Ends Q E (f a))
    → Ends Q E (m >>= f)
Ends->>= P Q E (ok a) f h k = k a h
Ends->>= P Q E (throws e) f h k = h
Ends->>= P Q E aborts f h k = elim h [ ]
Ends->>= P Q E faults f h k = elim h [ ]

pub Ends-mono {ℓ κ} :
    {A : Type ℓ} (P Q : A → Type κ) (E F : Exception → Type κ) (m : Outcome A)
    → ((a : A) → P a → Q a)
    → ((e : Exception) → E e → F e)
    → Ends P E m
    → Ends Q F m
Ends-mono P Q E F (ok a) p e h = p a h
Ends-mono P Q E F (throws x) p e h = e x h
Ends-mono P Q E F aborts p e h = elim h [ ]
Ends-mono P Q E F faults p e h = elim h [ ]

-- Inversion of a sequence that succeeds.
pub >>-eq-ok {ℓ} :
    {B : Type ℓ} (m : Outcome (Unit {0})) (k : Outcome B) {b : B}
    → (m >> k) ≡ ok b
    → (m ≡ ok tt) × (k ≡ ok b)
>>-eq-ok (ok u) k h = (refl, h)
>>-eq-ok (throws e) k h = cc
>>-eq-ok aborts k h = cc
>>-eq-ok faults k h = cc

pub >>=-eq-ok {ℓ κ} :
    {A : Type ℓ} {B : Type κ} (call : Outcome A) (rest : A → Outcome B) {r : B}
    → (call >>= rest) ≡ ok r
    → (a : A) × (call ≡ ok a) × (rest a ≡ ok r)
>>=-eq-ok aborts rest e = cc
>>=-eq-ok faults rest e = cc
>>=-eq-ok (throws x) rest e = cc
>>=-eq-ok (ok a) rest e = (a, refl, e)

pub assert-eq-ok : (b : Bool) → assert b ≡ ok tt → b ≡ true
assert-eq-ok true h = refl
assert-eq-ok false h = cc

-- What a call that ends comes to.
pub Ends-cases {ℓ κ} :
    {A : Type ℓ} (P : A → Type κ) (E : Exception → Type κ) (m : Outcome A)
    → Ends P E m
    → ((a : A) × (m ≡ ok a) × P a) ⊎ ((e : Exception) × (m ≡ throws e) × E e)
Ends-cases P E (ok a) h = inl (a, refl, h)
Ends-cases P E (throws e) h = inr (e, refl, h)
Ends-cases P E aborts h = elim h [ ]
Ends-cases P E faults h = elim h [ ]
