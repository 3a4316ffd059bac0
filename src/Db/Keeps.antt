-- ===== src/Db/Keeps.antt =====
-- Invariants of the database under actions, whatever the driver does: a rule for each way to build
-- an action.
use oidc_test_idp.Prelude.{
  ◌≡◌, Bool, true, false, Option, some, arith, if◌then◌else◌, Option-cases, inl, inr,
}
use oidc_test_idp.Platform.{Platform}
use oidc_test_idp.Db.{
  Db, World, Error, Result, ok, err, M, continue, ◌>>=◌, pure, raise, attempt, or_raise, or_error,
  query, exec, new_string, time_now,
}

-- The action keeps `P` of the database, whether it succeeds or fails.
pub record Keeps (P : Db → Type 0) {A : Type 0} (m : M A) : Type 0 where
  pub at : (w : World) → P w.db → P (m w).1.db

module _ {P : Db → Type 0} where
  pub Keeps-pure : {A : Type 0} (a : A) → Keeps P (pure a)
  Keeps-pure a = record { at = λ w h. h }

  pub Keeps-raise : {A : Type 0} (e : Error) → Keeps P (raise {A = A} e)
  Keeps-raise e = record { at = λ w h. h }

  Keeps-continue :
      {A B : Type 0} (r : Result A) (f : A → M B) (w : World)
      → ((a : A) → Keeps P (f a))
      → P w.db
      → P (continue r f w).1.db
  Keeps-continue (ok a) f w k h = (k a).at w h
  Keeps-continue (err e) f w k h = h

  pub Keeps-bind :
      {A B : Type 0} (m : M A) (f : A → M B)
      → Keeps P m
      → ((a : A) → Keeps P (f a))
      → Keeps P (m >>= f)
  Keeps-bind m f km kf = record { at = λ w h. Keeps-continue (m w).0 f (m w).1 kf (km.at w h) }

  pub Keeps-attempt : {A : Type 0} (m : M A) → Keeps P m → Keeps P (attempt m)
  Keeps-attempt m km = record { at = λ w h. km.at w h }

  pub Keeps-or_raise : {A : Type 0} (e : Error) (r : Result A) → Keeps P (or_raise e r)
  Keeps-or_raise e (ok a) = Keeps-pure a
  Keeps-or_raise e (err x) = Keeps-raise e

  pub Keeps-or_error : {A : Type 0} (e : Error) (m : M A) → Keeps P m → Keeps P (or_error e m)
  Keeps-or_error e m km =
      Keeps-bind (attempt m) (or_raise e) (Keeps-attempt m km) (Keeps-or_raise e)

  pub Keeps-if :
      {A : Type 0} (b : Bool) (m n : M A) → Keeps P m → Keeps P n → Keeps P (if b then m else n)
  Keeps-if true m n km kn = km
  Keeps-if false m n km kn = kn

  module _ (p : Platform) where
    pub Keeps-query : {A : Type 0} (select : Db → Option A) → Keeps P (query p select)
    unfolding query
    Keeps-query select = record { at = λ w h. ground arith }

    -- A change that the constraints accept keeps `P`.
    pub Keeps-exec :
        (change : Db → Option Db)
        → ((d q : Db) → change d ≡ some q → P d → P q)
        → Keeps P (exec p change)
    unfolding exec
    Keeps-exec change k = record {
      at = λ w h. elim (Option-cases (change w.db)) [
        | inl e ↦ ground (arith, e)
        | inr (q, e) ↦ ground (arith, k w.db q e h)
      ];
    }

    pub Keeps-new_string : Keeps P (new_string p)
    unfolding new_string
    Keeps-new_string = record { at = λ w h. h }

    pub Keeps-time_now : Keeps P (time_now p)
    unfolding time_now
    Keeps-time_now = record { at = λ w h. h }

pub ruleset keeps_rules = (
  Keeps-pure, Keeps-raise, Keeps-bind, Keeps-attempt, Keeps-or_error, Keeps-if, Keeps-query,
  Keeps-new_string, Keeps-time_now,
)
