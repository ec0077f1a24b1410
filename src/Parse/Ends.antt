-- ===== src/Parse/Ends.antt =====
-- Outcomes that have not run out of fuel.
use cmdr_cxx.Base.{◌≡◌, ◌≢◌, refl, Option, none, some}
use cmdr_cxx.Parse.{Outcome, done, fault, unfinished, ◌>>=◌, from_option}

abbrev pub Ends : {A : Type 0} → Outcome A → Type 0
Ends o = o ≢ unfinished

pub Ends-bind :
    {A B : Type 0} (m : Outcome A) (f : A → Outcome B)
    → Ends m
    → ((a : A) → m ≡ done a → Ends (f a))
    → Ends (m >>= f)
Ends-bind (done a) f h k = k a refl
Ends-bind fault f h k = λ e. cc e
Ends-bind unfinished f h k = λ e. h refl

pub Ends-done : {A : Type 0} (a : A) → Ends (done a)
Ends-done a e = cc e

pub Ends-fault : (A : Type 0) → Ends {A = A} fault
Ends-fault A e = cc e

pub Ends-from_option : {A : Type 0} (o : Option A) → Ends (from_option o)
Ends-from_option none e = cc e
Ends-from_option (some a) e = cc e

-- What a result that is there tells of the parts.
pub bind-eq-done :
    {A B : Type 0} (m : Outcome A) (f : A → Outcome B) (b : B)
    → (m >>= f) ≡ done b
    → (a : A) × (m ≡ done a) × (f a ≡ done b)
bind-eq-done (done a) f b e = (a, refl, e)
bind-eq-done fault f b e = cc e
bind-eq-done unfinished f b e = cc e
