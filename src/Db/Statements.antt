-- ===== src/Db/Statements.antt =====
-- What a statement does while the driver works, and the round trips of the text columns.
use oidc_test_idp.Prelude.{
  ℕ, suc, ◌<◌, String, ◌≡◌, refl, Bool, true, false, Option, none, some, List, arith, is_nonzero,
  ap, zero, eq_iff, ◌⊎◌, inl, inr, Option-cases, Bool-cases,
}
use oidc_test_idp.Platform.{Platform, RoundTrips, year_10000, Healthy}
use oidc_test_idp.Db.{
  Db, World, Error, driver, no_rows, constraint, Result, ok, err, M, ◌>>=◌, query, exec, time_str,
  parse_time, json_strings, bool_int,
}

abbrev pub counted_on : World → World
counted_on w = record w { statements = suc w.statements }

abbrev pub selected : {A : Type 0} → Option A → Result A
selected none = err no_rows
selected (some a) = ok a

abbrev pub changed : World → Option Db → Result (Unit {0}) × World
changed w none = (err constraint, counted_on w)
changed w (some d) = (ok tt, record (counted_on w) { db = d })

pub Result-cases :
    {A : Type 0} → (r : Result A) → ((a : A) × (r ≡ ok a)) ⊎ ((e : Error) × (r ≡ err e))
Result-cases (ok a) = inl (a, refl)
Result-cases (err e) = inr (e, refl)

-- A change is refused, by the driver or a constraint, and nothing is changed, or it is made.
pub exec-cases :
    (p : Platform) (change : Db → Option Db) (w : World)
    → (((exec p change w).0 ≡ ok tt) × (change w.db ≡ some (exec p change w).1.db))
      ⊎ ((e : Error) × ((exec p change w).0 ≡ err e) × ((exec p change w).1.db ≡ w.db))
unfolding exec
exec-cases p change w = elim (Bool-cases (p.fault w.statements)) [
  | inl f ↦ inr (driver, rw f refl, rw f refl)
  | inr f ↦ elim (Option-cases (change w.db)) [
    | inl e ↦ inr (constraint, rw (f, e) refl, rw (f, e) refl)
    | inr (d, e) ↦ inl (rw (f, e) refl, rw (f, e) refl)
  ]
]

module _ (p : Platform) (healthy : Healthy p) where
  pub query_lem :
      {A : Type 0} (select : Db → Option A) (w : World)
      → query p select w ≡ (selected (select w.db), counted_on w)
  unfolding query
  query_lem select w = ground (arith, healthy w.statements)

  -- A read that is only computed with takes one statement and changes nothing.
  pub query-bind-world :
      {A B : Type 0} (select : Db → Option A) (f : A → M B) (w : World)
      → ((a : A) (v : World) → (f a v).1 ≡ v)
      → ((query p select >>= f) w).1 ≡ counted_on w
  query-bind-world select f w quiet = elim (Option-cases (select w.db)) [
    | inl e ↦ ground (arith, query_lem select w, e)
    | inr (a, e) ↦ ground (arith, query_lem select w, e, quiet a (counted_on w))
  ]

  pub exec_lem : (change : Db → Option Db) (w : World) → exec p change w ≡ changed w (change w.db)
  unfolding exec
  exec_lem change w = ground (arith, healthy w.statements)

pub is_nonzero-bool_int : (b : Bool) → is_nonzero (bool_int b) ≡ b
is_nonzero-bool_int true = refl
is_nonzero-bool_int false = refl

module _ (p : Platform) (trips : RoundTrips p) where
  -- A time column gives back its time, the zero time included.
  pub parse_time-time_str : (t : ℕ) → t < year_10000 → parse_time p (time_str p t) ≡ t
  unfolding parse_time time_str
  parse_time-time_str zero h = refl
  parse_time-time_str (suc n) h =
      ground
        (arith, eq_iff (p.format_time (suc n)) "", trips.time_text (suc n), trips.time (suc n) h)

  pub json_strings-marshal : (l : List String) → json_strings p (p.marshal_strings l) ≡ l
  unfolding json_strings
  json_strings-marshal l = ap (λ (r : List String × Bool). r.0) (trips.strings l)
