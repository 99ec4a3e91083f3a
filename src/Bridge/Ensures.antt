-- ===== src/Bridge/Ensures.antt =====
-- What holds of the result of a method of bridge/bridge.go that ends.
use registrator.Common.{◌≡◌}
use registrator.Bridge.World.{Outcome, ok, blocked, panic, exit, ◌>>=◌}

-- What holds of a result, where there is one.
abbrev pub Ensures : {A : Type 0} → Outcome A → (A → Type 0) → Type 0
Ensures (ok a) P = P a
Ensures blocked P = Unit
Ensures panic P = Unit
Ensures exit P = Unit

pub Ensures-bind :
    {A B : Type 0} (m : Outcome A) (f : A → Outcome B) (P : A → Type 0) (Q : B → Type 0)
    → Ensures m P
    → ((a : A) → P a → Ensures (f a) Q)
    → Ensures (m >>= f) Q
Ensures-bind (ok a) f P Q h k = k a h
Ensures-bind blocked f P Q h k = tt
Ensures-bind panic f P Q h k = tt
Ensures-bind exit f P Q h k = tt

pub Ensures-mono :
    {A : Type 0} (m : Outcome A) (P Q : A → Type 0)
    → Ensures m P
    → ((a : A) → P a → Q a)
    → Ensures m Q
Ensures-mono (ok a) P Q h k = k a h
Ensures-mono blocked P Q h k = tt
Ensures-mono panic P Q h k = tt
Ensures-mono exit P Q h k = tt

pub Ensures-ok :
    {A : Type 0} (m : Outcome A) (P : A → Type 0) {a : A} → m ≡ ok a → Ensures m P → P a
Ensures-ok m P e h = rw e at h

pub Ensures-both :
    {A : Type 0} (m : Outcome A) (P Q : A → Type 0)
    → Ensures m P
    → Ensures m Q
    → Ensures m (λ a. P a × Q a)
Ensures-both (ok a) P Q h k = (h, k)
Ensures-both blocked P Q h k = tt
Ensures-both panic P Q h k = tt
Ensures-both exit P Q h k = tt

-- Of every result something holds that always does.
pub Ensures-any : {A : Type 0} (m : Outcome A) → Ensures m (λ a. Unit)
Ensures-any (ok a) = tt
Ensures-any blocked = tt
Ensures-any panic = tt
Ensures-any exit = tt
