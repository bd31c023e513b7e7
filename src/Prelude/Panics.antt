-- ===== src/Prelude/Panics.antt =====
-- Go code that may panic returns an `Option`: `none` is the panic, which ends the process.
use mathlib.Core.Path.{◌≡◌, refl}
use mathlib.Core.Bool.{Bool, true, false}
use Prim.Native.Nat.{ℕ, ◌≤◌}
use mathlib.Core.Bool.{◌&&◌}
use mathlib.Core.Option.{Option, none, some}
use mathlib.Core.List.{List}
use tiny_kv_practice.Prelude.Tests.{leb, le→leb, if◌then◌else◌}
use tiny_kv_practice.Prelude.Lists.{length, take, drop}

infixl 5 ◌>>=◌ ◌>>◌
abbrev pub ◌>>=◌ {ℓ κ} : {A : Type ℓ} {B : Type κ} → Option A → (A → Option B) → Option B
none >>= f = none
some a >>= f = f a

abbrev pub ◌>>◌ {ℓ} : {B : Type ℓ} → Option (Unit {0}) → Option B → Option B
m >> k = m >>= λ _. k

-- Go on only if the test passes; panic otherwise.
abbrev pub check : Bool → Option (Unit {0})
check true = some tt
check false = none

-- A successful chain has a successful first part.
pub >>=-eq-some {ℓ κ} :
    {A : Type ℓ} {B : Type κ} (m : Option A) (f : A → Option B) {b : B}
    → (m >>= f) ≡ some b
    → (a : A) × (m ≡ some a) × (f a ≡ some b)
>>=-eq-some none f h = cc
>>=-eq-some (some a) f h = (a, refl, h)

-- A slice expression l[lo:hi] of Go. A bound `hi` beyond the length panics here; Go lets it go up to
-- the capacity, which the model does not know, and would show old contents of the array.
unfoldable pub slice {ℓ} : {A : Type ℓ} → List A → ℕ → ℕ → Option (List A)
slice l lo hi = if leb lo hi && leb hi (length l) then some (drop lo (take hi l)) else none

pub slice_exact {ℓ} :
    {A : Type ℓ} (l : List A) (lo hi : ℕ)
    → lo ≤ hi
    → hi ≤ length l
    → slice l lo hi ≡ some (drop lo (take hi l))
unfolding slice
slice_exact l lo hi h k = rw (le→leb lo hi h, le→leb hi (length l) k)
