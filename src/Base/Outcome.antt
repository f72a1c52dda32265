-- ===== src/Base/Outcome.antt =====
-- How a Go call ends: with a value, with a value of type `error`, or in a panic.
use mathlib.Core.Path.{◌≡◌, refl}
use mathlib.Core.Logic.{◌≢◌}
use native.Mathlib.Omega.{arith}
use mathlib.Core.Option.{Option, none, some}
use Prim.Native.String.{String}

-- The errors that the code makes by `seelog.Errorf`, and those that a client library returns.
pub data Error : Type 0 where
  library : String → Error
  no_metrics_from_api : Error
  no_container_in_metrics : String → Error
  no_pods : Error
  no_pod_metrics : Error
  no_requests : Error
  missing_request : String → Error
  unsupported : String → Error

pub data Panic : Type 0 where
  nil_dereference divide_by_zero nil_function index_out_of_range : Panic

pub data Result {ℓ} (A : Type ℓ) : Type ℓ where
  ok : A → Result A
  err : Error → Result A
  panic : Panic → Result A

-- The rest of the code runs only after a value.
infixl 5 ◌>>=◌
abbrev pub ◌>>=◌ {ℓ κ} :
    {Value : Type ℓ} {Next : Type κ} → Result Value → (Value → Result Next) → Result Next
panic reason >>= continue = panic reason
err failure >>= continue = err failure
ok value >>= continue = continue value

-- Reading through a pointer.
abbrev pub deref {ℓ} : {A : Type ℓ} → Option A → Result A
deref none = panic nil_dereference
deref (some a) = ok a

-- The value of a call that ended with one.
abbrev pub from_ok : {A : Type 0} → A → Result A → A
from_ok default (ok a) = a
from_ok default (err e) = default
from_ok default (panic p) = default

-- What a call that ended with a value went through.
pub >>=-eq-ok {ℓ κ} :
    {Value : Type ℓ} {Next : Type κ} (call : Result Value) (continue : Value → Result Next)
    {end : Next}
    → (call >>= continue) ≡ ok end
    → (value : Value) × (call ≡ ok value) × (continue value ≡ ok end)
>>=-eq-ok (panic reason) continue ended = cc
>>=-eq-ok (err failure) continue ended = cc
>>=-eq-ok (ok value) continue ended = (value, refl, ended)

pub ok-inj {ℓ} : {A : Type ℓ} {a b : A} → ok a ≡ ok b → a ≡ b
ok-inj h = cc

abbrev pub NeverPanics {ℓ} : {A : Type ℓ} → Result A → Type ℓ
NeverPanics r = (p : Panic) → r ≢ panic p

-- The call ends with a value.
abbrev pub IsOk {ℓ} : {A : Type ℓ} → Result A → Type ℓ
IsOk {A = A} r = (a : A) × (r ≡ ok a)

pub >>=-NeverPanics {ℓ κ} :
    {A : Type ℓ} {B : Type κ} (m : Result A) (f : A → Result B)
    → NeverPanics m
    → ((a : A) → m ≡ ok a → NeverPanics (f a))
    → NeverPanics (m >>= f)
>>=-NeverPanics (ok a) f h k = k a refl
>>=-NeverPanics (err e) f h k = λ p bad. cc
>>=-NeverPanics (panic q) f h k = λ p bad. absurd (h q refl)

pub >>=-IsOk {ℓ κ} :
    {A : Type ℓ} {B : Type κ} (m : Result A) (f : A → Result B)
    → IsOk m
    → ((a : A) → m ≡ ok a → IsOk (f a))
    → IsOk (m >>= f)
>>=-IsOk (ok a) f h k = k a refl
>>=-IsOk (err e) f (a, h) k = absurd (ground arith)
>>=-IsOk (panic q) f (a, h) k = absurd (ground arith)

pub IsOk-NeverPanics {ℓ} : {A : Type ℓ} (r : Result A) → IsOk r → NeverPanics r
IsOk-NeverPanics r (a, e) p = λ bad. ground arith
