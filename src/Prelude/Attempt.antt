-- ===== src/Prelude/Attempt.antt =====
-- A computation that stops early with an error, and the `do` notation for it.
use ppv_stream_rust.Prelude.{◌≡◌, ◌⊎◌, inl, inr, Bool, Option, none, some, if◌then◌else◌, refl}

pub data Attempt (E A : Type 0) : Type 0 where
  done : A → Attempt E A
  stopped : E → Attempt E A

infixl 5 ◌>>=◌ ◌>>◌
abbrev pub ◌>>=◌ : {E A B : Type 0} → Attempt E A → (A → Attempt E B) → Attempt E B
done a >>= f = f a
stopped e >>= f = stopped e

abbrev pub ◌>>◌ : {E B : Type 0} → Attempt E (Unit {0}) → Attempt E B → Attempt E B
m >> k = m >>= λ _. k

-- An early return under a test.
abbrev pub stop_if : {E : Type 0} → Bool → E → Attempt E (Unit {0})
stop_if b e = if b then stopped e else done tt

-- An early return where a value is missing.
abbrev pub or_stop : {E A : Type 0} → Option A → E → Attempt E A
or_stop none e = stopped e
or_stop (some a) e = done a

abbrev pub map_stop : {D E A : Type 0} → (D → E) → Attempt D A → Attempt E A
map_stop f (done a) = done a
map_stop f (stopped d) = stopped (f d)

pub Attempt-cases :
    {E A : Type 0} (m : Attempt E A) → ((e : E) × (m ≡ stopped e)) ⊎ ((a : A) × (m ≡ done a))
Attempt-cases (stopped e) = inl (e, refl)
Attempt-cases (done a) = inr (a, refl)

-- Inversion of a bind that ended.
pub >>=-done :
    {E A B : Type 0} (m : Attempt E A) (f : A → Attempt E B) {b : B}
    → (m >>= f) ≡ done b
    → (a : A) × (m ≡ done a) × (f a ≡ done b)
>>=-done (done a) f h = (a, refl, h)
>>=-done (stopped e) f h = cc
