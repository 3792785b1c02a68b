-- ===== src/Common/Results.antt =====
-- What a call of kernel code comes to. `panic` stops the kernel; a run that does not get past a
-- loop (it spins on a lock that is held, or its fuel is used up) is `loops`.
use Prim.Native.String.{String}
use mathlib.Core.Bool.{Bool, true, false}
use mathlib.Core.Path.{◌≡◌, refl}
use oshard.Common.Tests.{if◌then◌else◌}

pub data Result {ℓ} (A : Type ℓ) : Type ℓ where
  ok : A → Result A
  panic : String → Result A
  loops : Result A

infixl 5 ◌>>=◌
abbrev pub ◌>>=◌ {ℓ κ} : {A : Type ℓ} {B : Type κ} → Result A → (A → Result B) → Result B
ok a >>= f = f a
panic e >>= f = panic e
loops >>= f = loops

-- A run that ends in a value has gone through its first part, and then through the rest.
pub bind_ok {ℓ κ} :
    {B : Type κ} {C : Type ℓ} (first : Result C) (rest : C → Result B) {end : B}
    → first >>= rest ≡ ok end
    → (middle : C) × (first ≡ ok middle) × (rest middle ≡ ok end)
bind_ok loops rest ends = absurd (cc ends)
bind_ok (panic message) rest ends = absurd (cc ends)
bind_ok (ok middle) rest ends = (middle, refl, ends)

pub guard_ok {ℓ} :
    {A : Type ℓ} (b : Bool) (s : String) (m : Result A) {a : A}
    → (if b then panic s else m) ≡ ok a
    → (b ≡ false) × (m ≡ ok a)
guard_ok true s m h = absurd (cc h)
guard_ok false s m h = (refl, h)
