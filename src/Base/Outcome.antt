-- ===== src/Base/Outcome.antt =====
-- What a fallible operation returns. `err` carries the text of the BackupError thrown;
-- `out_of_fuel` is no outcome of the program: a loop of the model ran through its fuel.
use Prim.Native.String.{String}
use mathlib.Core.Path.{◌≡◌, refl}
use mathlib.Core.Bool.{Bool, true, false}

pub data Result {ℓ} (A : Type ℓ) : Type ℓ where
  ok : A → Result A
  err : String → Result A
  out_of_fuel : Result A

-- The first error ends a computation.
abbrev pub ◌>>=◌ {ℓ κ} : {X : Type ℓ} {Y : Type κ} → Result X → (X → Result Y) → Result Y
out_of_fuel >>= k = out_of_fuel
err message >>= k = err message
ok x >>= k = k x

abbrev pub ◌>>◌ {ℓ κ} : {X : Type ℓ} {Y : Type κ} → Result X → Result Y → Result Y
first >> second = first >>= λ _. second

infixl 5 ◌>>=◌ ◌>>◌
-- `ensure` of common.cpp: a false condition throws the message.
abbrev pub ensure : Bool → String → Result (Unit {0})
ensure true message = ok tt
ensure false message = err message

-- What a computation that returned went through.
pub bind-eq-ok {ℓ κ} :
    {X : Type ℓ} {Y : Type κ} (r : Result X) {f : X → Result Y} {y : Y}
    → (r >>= f) ≡ ok y
    → (x : X) × (r ≡ ok x) × (f x ≡ ok y)
bind-eq-ok (ok x) h = (x, refl, h)
bind-eq-ok (err e) h = absurd (cc)
bind-eq-ok out_of_fuel h = absurd (cc)

pub ensure-eq-ok {κ} :
    {Y : Type κ} (b : Bool) (message : String) {k : Result Y} {y : Y}
    → (ensure b message >> k) ≡ ok y
    → (b ≡ true) × (k ≡ ok y)
ensure-eq-ok true message h = (refl, h)
ensure-eq-ok false message h = absurd (cc)

pub ok-injective {ℓ} : {X : Type ℓ} {x y : X} → Result.ok x ≡ ok y → x ≡ y
ok-injective h = cc
