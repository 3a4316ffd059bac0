-- ===== src/Sample/Request.antt =====
-- An auth request as a tree of its exported fields, and back.
use oidc_test_idp.Prelude.{◌≡◌, refl, ap, false, Option, none, some, ℤ, pos, negsuc}
use oidc_test_idp.Models.{AuthRequest, OidcCodeChallenge}
use oidc_test_idp.Platform.{exported}
use oidc_test_idp.Sample.Tree.{Tree, node}
use oidc_test_idp.Sample.Codec.{
  nat, un_nat, un_nat-nat, string, un_string, un_string-string, strings, un_strings,
  un_strings-strings,
}

integer : ℤ → Tree
integer (pos n) = node Tree.nil (nat n)
integer (negsuc n) = node (node Tree.nil Tree.nil) (nat n)

un_integer : Tree → ℤ
un_integer (node Tree.nil t) = pos (un_nat t)
un_integer (node a t) = negsuc (un_nat t)
un_integer _ = pos 0

un_integer-integer : (n : ℤ) → un_integer (integer n) ≡ n
unfolding un_integer integer
un_integer-integer (pos n) = ap pos (un_nat-nat n)
un_integer-integer (negsuc n) = ap negsuc (un_nat-nat n)

max_age : Option ℤ → Tree
max_age none = Tree.nil
max_age (some n) = node (integer n) Tree.nil

un_max_age : Tree → Option ℤ
un_max_age (node a t) = some (un_integer a)
un_max_age _ = none

un_max_age-max_age : (o : Option ℤ) → un_max_age (max_age o) ≡ o
unfolding un_max_age max_age
un_max_age-max_age none = refl
un_max_age-max_age (some n) = ap some (un_integer-integer n)

challenge : Option OidcCodeChallenge → Tree
challenge none = Tree.nil
challenge (some c) = node (string c.challenge) (string c.method)

un_challenge : Tree → Option OidcCodeChallenge
un_challenge (node a b) = some (record { challenge = un_string a; method = un_string b })
un_challenge _ = none

un_challenge-challenge : (o : Option OidcCodeChallenge) → un_challenge (challenge o) ≡ o
unfolding un_challenge challenge
un_challenge-challenge none = refl
un_challenge-challenge (some c) = simp un_string-string

-- The parts of a node.
left : Tree → Tree
left (node a b) = a
left _ = Tree.nil

right : Tree → Tree
right (node a b) = b
right _ = Tree.nil

abbrev origin : AuthRequest → Tree
origin r = node (string r.id) (
    node (nat r.creation_date) (
      node (string r.application_id)
        (node (string r.callback_uri) (node (string r.transfer_state) (strings r.prompt)))))

abbrev asked : AuthRequest → Tree
asked r = node (strings r.ui_locales) (
    node (string r.login_hint) (
      node (max_age r.max_auth_age)
        (node (string r.user_id) (node (strings r.scopes) (string r.response_type)))))

abbrev answered : AuthRequest → Tree
answered r = node (string r.response_mode) (
    node (string r.nonce)
      (node (challenge r.code_challenge) (node (string r.acr_value) (strings r.amr_values))))

pub request : AuthRequest → Tree
request r = node (origin r) (node (asked r) (answered r))

pub un_request : Tree → AuthRequest
unfolding left right
un_request t =
    let o = left t in
    let q = left (right t) in
    let a = right (right t) in
    record {
      id = un_string (left o);
      creation_date = un_nat (left (right o));
      application_id = un_string (left (right (right o)));
      callback_uri = un_string (left (right (right (right o))));
      transfer_state = un_string (left (right (right (right (right o)))));
      prompt = un_strings (right (right (right (right (right o)))));
      ui_locales = un_strings (left q);
      login_hint = un_string (left (right q));
      max_auth_age = un_max_age (left (right (right q)));
      user_id = un_string (left (right (right (right q))));
      scopes = un_strings (left (right (right (right (right q)))));
      response_type = un_string (right (right (right (right (right q)))));
      response_mode = un_string (left a);
      nonce = un_string (left (right a));
      code_challenge = un_challenge (left (right (right a)));
      acr_value = un_string (left (right (right (right a))));
      amr_values = un_strings (right (right (right (right a))));
      done = false;
      auth_time = 0;
    }

pub un_request-request : (r : AuthRequest) → un_request (request r) ≡ exported r
unfolding un_request request
un_request-request r =
    simp
      (un_nat-nat, un_string-string, un_strings-strings, un_max_age-max_age, un_challenge-challenge)
