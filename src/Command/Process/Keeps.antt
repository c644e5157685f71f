-- ===== src/Command/Process/Keeps.antt =====
-- What a chain of calls keeps, and which of its errors it logs.
use mathlib.Core.Path.{subst}
use tidb_fk_test.Base.{◌≡◌, refl, true, Option, none, some, Text}
use tidb_fk_test.Base.Errors.{Error}
use tidb_fk_test.Db.Session.{Outcome, ok, failed}
use tidb_fk_test.Command.Process.{
  Process, Calls, and_then, ◌>>=◌, error_or, checks, deferring, log_command_error, logged, logging,
}

module _ {S : Type 0} (Q : Process S → Type 0) where
  abbrev pub Keeps : {A : Type 0} → Calls S A → Type 0
  Keeps m = (p : Process S) → Q p → Q (m p).1

  pub >>=-Keeps :
      {A B : Type 0} (m : Calls S A) (f : A → Calls S B)
      → Keeps m
      → ((a : A) → Keeps (f a))
      → Keeps (m >>= f)
  >>=-Keeps {A = A} {B = B} m f hm hf p h = split (m p) (hm p h)
    where
      split : (r : Outcome A × Process S) → Q r.1 → Q (and_then f r).1
      split (failed e, q) k = k
      split (ok a, q) k = hf a q k

  pub checks-Keeps :
      (f : S → Option Error × S)
      → ((p : Process S) → Q p → Q (record p { world = (f p.world).1 }))
      → Keeps (checks f)
  checks-Keeps f k p h = split (f p.world).0 _ (k p h)
    where
      split : (o : Option Error) (q : Process S) → Q q → Q (error_or (o, q)).1
      split none q x = x
      split (some e) q x = x

  pub logging-Keeps :
      {A : Type 0} (step : Text) (m : Calls S A)
      → ((e : Error) (p : Process S) → Q p → Q (log_command_error true step (some e) p))
      → Keeps m
      → Keeps (logging step m)
  logging-Keeps {A = A} step m l k p h = split (m p) (k p h)
    where
      split : (r : Outcome A × Process S) → Q r.1 → Q (logged step r).1
      split (ok a, q) x = x
      split (failed e, q) x = l e q x

-- An error comes with a property of the process that the calls leave.
module _ {S : Type 0} (R : Error → Process S → Type 0) where
  abbrev pub FailsWith : {A : Type 0} → Calls S A → Type 0
  FailsWith m = (p q : Process S) (e : Error) → m p ≡ (failed e, q) → R e q

  pub >>=-FailsWith :
      {A B : Type 0} (m : Calls S A) (f : A → Calls S B)
      → FailsWith m
      → ((a : A) → FailsWith (f a))
      → FailsWith (m >>= f)
  >>=-FailsWith {A = A} {B = B} m f hm hf p q e h = split (m p) refl h
    where
      split : (r : Outcome A × Process S) → m p ≡ r → and_then f r ≡ (failed e, q) → R e q
      split (failed d, t) a b = hm p q e (cc (a, b))
      split (ok a, t) i b = hf a t q e b

  pub deferring-FailsWith :
      {A : Type 0} (f : S → S) (m : Calls S A)
      → ((e : Error) (q : Process S) → R e q → R e (record q { world = f q.world }))
      → FailsWith m
      → FailsWith (deferring f m)
  deferring-FailsWith {A = A} f m k hm p q e h = split (m p) refl h
    where
      split :
          (r : Outcome A × Process S)
          → m p ≡ r
          → ◌≡◌ {A = Outcome A × Process S} (r.0, record r.1 { world = f r.1.world }) (failed e, q)
          → R e q
      split (ok a, t) i b = absurd (cc)
      split (failed d, t) i b =
          let same : record t { world = f t.world } ≡ q = cc in
          let also : d ≡ e = cc in
          subst (R e) same (k e t (hm p t e (subst (λ x. m p ≡ (failed x, t)) also i)))

  -- A failure of a call whose error is logged comes with the entry of the log.
  pub logging-FailsWith :
      {A : Type 0} (step : Text) (m : Calls S A)
      → ((e : Error) (p q : Process S)
          → m p ≡ (failed e, q)
          → R e (log_command_error true step (some e) q))
      → FailsWith (logging step m)
  logging-FailsWith {A = A} step m k p q e h = split (m p) refl h
    where
      split : (r : Outcome A × Process S) → m p ≡ r → logged step r ≡ (failed e, q) → R e q
      split (ok a, t) i b = absurd (cc)
      split (failed d, t) i b =
          let same : log_command_error true step (some d) t ≡ q = cc in
          let also : d ≡ e = cc in subst (λ x. R x q) also (subst (R d) same (k d p t i))
