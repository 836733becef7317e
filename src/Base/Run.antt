-- ===== src/Base/Run.antt =====
-- How a call ends. `ok` is a return with its value; `fault` is an access outside the memory that the
-- program owns, or other behaviour that C leaves undefined; `exits` is a call of `event_err`,
-- `event_errx` or a failed `assert`, which end the process; `diverges` says that the fuel of the
-- model ran out, so a call that is shown to be `ok` is also shown to end.
use libevent_1_4_3_stable_le.Base.{◌≡◌, refl, Bool, true, false, Option, none, some, if◌then◌else◌}

pub data Run {ℓ} (A : Type ℓ) : Type ℓ where
  fault exits diverges : Run A
  ok : A → Run A

infixl 5 ◌>>=◌
abbrev pub ◌>>=◌ {κ ℓ} : {B : Type κ} {A : Type ℓ} → Run B → (B → Run A) → Run A
fault >>= next = fault
exits >>= next = exits
diverges >>= next = diverges
ok b >>= next = next b

abbrev pub or_fault {ℓ} : {A : Type ℓ} → Option A → Run A
or_fault none = fault
or_fault (some found) = ok found

-- Total correctness: the call `r` returns, and `P` holds of its value.
pub data Returns {ℓ κ} {A : Type ℓ} (P : A → Type κ) (r : Run A) : Type (ℓ ⊔ κ) where
  with_value : (value : A) → r ≡ ok value → P value → Returns P r

pub returns {ℓ κ} : {A : Type ℓ} {P : A → Type κ} (value : A) → P value → Returns P (ok value)
returns value holds = with_value value refl holds

pub Returns-inv {ℓ κ} :
    {A : Type ℓ} {P : A → Type κ} {r : Run A} → Returns P r → (value : A) × (r ≡ ok value) × P value
Returns-inv (with_value value eq holds) = (value, eq, holds)

pub Returns-bind {ℓ κ ℓ' κ'} :
    {A : Type ℓ} {P : A → Type κ} {B : Type ℓ'} {Q : B → Type κ'} {first : Run A} {next : A → Run B}
    → Returns P first
    → ((value : A) → P value → Returns Q (next value))
    → Returns Q (first >>= next)
Returns-bind (with_value value eq holds) rest = rw eq (rest value holds)

pub Returns-map {ℓ κ κ'} :
    {A : Type ℓ} {P : A → Type κ} {Q : A → Type κ'} {r : Run A}
    → Returns P r
    → ((value : A) → P value → Q value)
    → Returns Q r
Returns-map (with_value value eq holds) weaken = with_value value eq (weaken value holds)

-- By cases on a test, of the code that runs and of the value that is returned.
module _ {ℓ κ} {A : Type ℓ} {P : A → Type κ} where
  pub Returns-if :
      {then_run else_run : Run A} (test : Bool)
      → (test ≡ true → Returns P then_run)
      → (test ≡ false → Returns P else_run)
      → Returns P (if test then then_run else else_run)
  Returns-if false on_true on_false = on_false refl
  Returns-if true on_true on_false = on_true refl

  pub Returns-ok_if :
      (a b : A) (test : Bool)
      → (test ≡ true → P a)
      → (test ≡ false → P b)
      → Returns P (ok (if test then a else b))
  Returns-ok_if a b false on_true on_false = returns b (on_false refl)
  Returns-ok_if a b true on_true on_false = returns a (on_true refl)

-- The same, where what is shown of the value depends on the test too.
pub Returns-if_both {ℓ κ ℓ'} :
    {A : Type ℓ} {C : Type ℓ'} (P : C → A → Type κ) {x y : C} {then_run else_run : Run A}
    (test : Bool)
    → (test ≡ true → Returns (P x) then_run)
    → (test ≡ false → Returns (P y) else_run)
    → Returns (P (if test then x else y)) (if test then then_run else else_run)
Returns-if_both P false on_true on_false = on_false refl
Returns-if_both P true on_true on_false = on_true refl

-- By cases on a test under `elim`, which computes no branch but the one that is taken.
pub Returns-elim {ℓ κ} :
    {A : Type ℓ} {P : A → Type κ} {then_run else_run : Run A} (test : Bool)
    → (test ≡ true → Returns P then_run)
    → (test ≡ false → Returns P else_run)
    → Returns P (elim test [ true ↦ then_run | false ↦ else_run ])
Returns-elim false on_true on_false = on_false refl
Returns-elim true on_true on_false = on_true refl

-- The same for a value that may be missing.
pub Returns-option {ℓ κ ℓ'} :
    {A : Type ℓ} {P : A → Type κ} {C : Type ℓ'} {without : Run A} {with' : C → Run A}
    (found : Option C)
    → (found ≡ none → Returns P without)
    → ((c : C) → found ≡ some c → Returns P (with' c))
    → Returns P (elim found [ none ↦ without | some c ↦ with' c ])
Returns-option none on_none on_some = on_none refl
Returns-option (some c) on_none on_some = on_some c refl

-- What is shown of a call that returns holds of the value that it returned.
pub Returns-value {ℓ κ} :
    {A : Type ℓ} {P : A → Type κ} {r : Run A} (value : A) → r ≡ ok value → Returns P r → P value
Returns-value value made (with_value found eq holds) =
    let same : found ≡ value = cc (eq, made) in rw same at holds

-- The value of a call, or `missing`.
abbrev pub value_or {ℓ} : {A : Type ℓ} → A → Run A → A
value_or missing (ok value) = value
value_or missing r = missing

pub Returns-made {ℓ κ} :
    {A : Type ℓ} {P : A → Type κ} {r : Run A} (missing : A)
    → Returns P r
    → r ≡ ok (value_or missing r)
Returns-made missing (with_value value eq holds) = rw eq refl
