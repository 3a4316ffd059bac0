-- ===== src/Config/Issuer.antt =====
-- The issuer that `Load` accepts.
use Prim.Native.Char.{Char, code}
use text.Mathlib.TextLemmas.{cons-eq-cons}
use oidc_test_idp.Prelude.{
  String, ◌==◌, eq_iff, ◌≡◌, ◌≢◌, ◌↔◌, ◌&&◌, refl, true, false, none, some, arith, Bool-cases,
  Option-cases, inl, inr, ap,
}
use oidc_test_idp.Prelude.Text.{same, has_suffix, trim_slashes}
use oidc_test_idp.Config.{Config, Environment, env, env_bool, load}

-- A text of slashes alone.
abbrev pub IsSlashes : String → Type 0
IsSlashes String.[] = Unit
IsSlashes (String.◌∷◌ c s) = (code c ≡ b'/') × IsSlashes s

trim_slashes-IsSlashes : (s : String) → IsSlashes s → trim_slashes s ≡ ""
unfolding trim_slashes
trim_slashes-IsSlashes String.[] h = refl
trim_slashes-IsSlashes (String.◌∷◌ c s) (h, k) =
    rw (trim_slashes-IsSlashes s k, trim_slashes) (rw h)

-- An issuer of slashes alone, at least one, is accepted, and the configuration then has the empty
-- issuer.
load-IsSlashes :
    (lookup : Environment) (s : String)
    → lookup "IDP_ISSUER" ≡ some s
    → s ≢ ""
    → IsSlashes s
    → (c : Config) × (load lookup ≡ some c) × (c.issuer ≡ "")
unfolding load env
load-IsSlashes lookup s h named slashes = (
  record {
    issuer = trim_slashes s;
    addr = env lookup "IDP_ADDR" ":9000";
    db_path = env lookup "IDP_DB_PATH" "/data/idp.db";
    seed_path = env lookup "IDP_SEED_PATH" "";
    allow_insecure = env_bool lookup "IDP_ALLOW_INSECURE" true;
  },
  ground (arith, eq_iff s ""),
  ground (arith, trim_slashes-IsSlashes s slashes),
)

slash_alone : (c : Char) (s : String) → String.◌∷◌ c s ≡ "/" → (code c ≡ b'/') × (s ≡ "")
slash_alone c s h = (ap code (cons-eq-cons.0 h).0, (cons-eq-cons.0 h).1)

has_suffix-trim_slashes : (s : String) → has_suffix (trim_slashes s) "/" ≡ false
unfolding has_suffix trim_slashes
has_suffix-trim_slashes String.[] = refl
has_suffix-trim_slashes (String.◌∷◌ c s) =
    elim (Bool-cases (trim_slashes s == "" && same (code c) b'/')) [
      | inl all ↦ rw (all, trim_slashes)
      | inr some_left ↦
          rw (some_left, trim_slashes)
            (ground (
              arith,
              has_suffix-trim_slashes s,
              eq_iff (String.◌∷◌ c (trim_slashes s)) "/",
              eq_iff (trim_slashes s) "",
              slash_alone c (trim_slashes s),
            ))
    ]

env_unset :
    (lookup : Environment)
    → lookup "IDP_ISSUER" ≡ none
    → env lookup "IDP_ISSUER" "http://localhost:9000" ≡ "http://localhost:9000"
unfolding env
env_unset lookup h = ground arith

-- Load fails exactly when IDP_ISSUER is set to the empty text, and the issuer that it gives never
-- ends with a slash.
pub load_issuer :
    (lookup : Environment)
    → ((load lookup ≡ none) ↔ (lookup "IDP_ISSUER" ≡ some ""))
      × ((c : Config) → load lookup ≡ some c → has_suffix c.issuer "/" ≡ false)
unfolding load env
load_issuer lookup = (
  elim (Option-cases (lookup "IDP_ISSUER")) [
    | inl unset ↦
        (λ h. ground (arith, ap (λ (v : String). v == "") (env_unset lookup unset)), λ h. cc)
    | inr (s, set) ↦ (λ h. ground (arith, eq_iff s ""), λ h. ground (arith, eq_iff s ""))
  ],
  λ c h. ground (arith, has_suffix-trim_slashes (env lookup "IDP_ISSUER" "http://localhost:9000")),
)
