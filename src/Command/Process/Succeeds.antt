-- ===== src/Command/Process/Succeeds.antt =====
-- A chain of calls that succeeds.
use tidb_fk_test.Base.{◌≡◌, refl, Text}
use tidb_fk_test.Db.Session.{Outcome, ok, failed}
use tidb_fk_test.Command.Process.{Process, Calls, and_then, ◌>>=◌, logged, logging, deferring}

-- A chain that succeeds has succeeded in both parts.
pub >>=-ok :
    {S A B : Type 0} (m : Calls S A) (f : A → Calls S B) (p q : Process S) (b : B)
    → (m >>= f) p ≡ (ok b, q)
    → (a : A) × (t : Process S) × (m p ≡ (ok a, t)) × (f a t ≡ (ok b, q))
>>=-ok {S} {A} {B} m f p q b h = split (m p) refl h
  where
    split :
        (r : Outcome A × Process S)
        → m p ≡ r
        → and_then f r ≡ (ok b, q)
        → (a : A) × (t : Process S) × (m p ≡ (ok a, t)) × (f a t ≡ (ok b, q))
    split (failed e, t) i j = absurd (cc)
    split (ok a, t) i j = (a, t, i, j)

pub logging-ok :
    {S A : Type 0} (step : Text) (m : Calls S A) (p q : Process S) (a : A)
    → logging step m p ≡ (ok a, q)
    → m p ≡ (ok a, q)
logging-ok {S} {A} step m p q a h = split (m p) h
  where
    split : (r : Outcome A × Process S) → logged step r ≡ (ok a, q) → r ≡ (ok a, q)
    split (failed e, t) j = absurd (cc)
    split (ok x, t) j = j

pub deferring-ok :
    {S A : Type 0} (f : S → S) (m : Calls S A) (p q : Process S) (a : A)
    → deferring f m p ≡ (ok a, q)
    → (t : Process S) × (m p ≡ (ok a, t))
deferring-ok {S} {A} f m p q a h = split (m p) refl h
  where
    split :
        (r : Outcome A × Process S)
        → m p ≡ r
        → ◌≡◌ {A = Outcome A × Process S} (r.0, record r.1 { world = f r.1.world }) (ok a, q)
        → (t : Process S) × (m p ≡ (ok a, t))
    split (failed e, t) i j = absurd (cc)
    split (ok x, t) i j = let same : x ≡ a = cc in (t, cc (i, same))
