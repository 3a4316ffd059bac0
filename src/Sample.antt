-- ===== src/Sample.antt =====
-- A platform that meets the assumptions of the theorems: its texts are printed trees, its clock
-- ticks at each reading, and its driver never fails. The examples of the theorems run on it.
pub mod Tree
pub mod Codec
mod Request
use oidc_test_idp.Prelude.{
  ℕ, zero, suc, ◌+◌, ◌*◌, ◌<◌, ◌≤◌, String, ◌≡◌, ◌≢◌, refl, ap, false, true, Option, none, some,
  List, [], ◌∷◌, ◌∙◌, ℤ, pos, negsuc, arith, ◌/◌,
}
use oidc_test_idp.Platform.{Platform, RoundTrips, Healthy, year_10000, exported, SameRules}
use oidc_test_idp.Models.{ConditionalClaimRule, second}
use oidc_test_idp.Sample.Tree.{print, read, read-print, print-ne-nil}
use oidc_test_idp.Sample.Codec.{
  nat, un_nat, un_nat-nat, strings, un_strings, un_strings-strings, object, un_object,
  un_object-object, rules, un_rules, un_rules-rules,
}
use oidc_test_idp.Sample.Request.{request, un_request, un_request-request}

abbrev pub name : ℕ → String
name zero = "u"
name (suc n) = String.◌∷◌ "v" (name n)

abbrev quotient : ℤ → ℤ
quotient (pos n) = pos (n / second)
quotient (negsuc n) = pos 0

abbrev pub sample : Platform
sample = record {
  uuid = name;
  clock = λ n. n + 1;
  fault = λ n. false;
  format_time = λ t. print (nat t) "";
  parse_rfc3339 = λ s. some (un_nat (read s));
  marshal_strings = λ l. print (strings l) "";
  unmarshal_strings = λ s. (un_strings (read s), true);
  marshal_object = λ o. some (print (object o) "");
  unmarshal_object = λ s. (un_object (read s), true);
  marshal_rules = λ l. some (print (rules l) "");
  unmarshal_rules = λ s. (un_rules (read s), true);
  marshal_request = λ r. some (print (request r) "");
  unmarshal_request = λ s. some (un_request (read s));
  whole_seconds = quotient;
  parse_language = λ s. some s;
}

pub sample-Healthy : Healthy sample
sample-Healthy n = refl

SameRules-refl : (l : List ConditionalClaimRule) → SameRules l l
SameRules-refl [] = tt
SameRules-refl (r ∷ l) = (refl, refl, (λ k. refl), SameRules-refl l)

pub sample-RoundTrips : RoundTrips sample
sample-RoundTrips = record {
  time = λ t h. ap some (ap un_nat (read-print (nat t)) ∙ un_nat-nat t);
  time_text = λ t. print-ne-nil (nat t) "";
  strings = λ l. rw (read-print (strings l), un_strings-strings l);
  object = λ o s e k.
      let q : print (object o) "" ≡ s = cc in
      rw (← q, read-print (object o), un_object-object o) refl;
  rules = λ l s e.
      let q : print (rules l) "" ≡ s = cc in
      rw (← q, read-print (rules l), un_rules-rules l) (SameRules-refl l);
  request = λ r s e.
      let q : print (request r) "" ≡ s = cc in
      rw (← q, read-print (request r), un_request-request r);
  whole = λ n h. ap pos (omega arith);
}
