-- ===== src/Sample/Codec.antt =====
-- The stored values as trees, and back.
use Prim.Native.Char.{Char, code}
use oidc_test_idp.Prelude.{
  ℕ, zero, suc, ◌+◌, ◌*◌, ◌/◌, ◌%◌, ◌≤◌, String, ◌≡◌, refl, ap, ltb, Bool, true, false, List, [],
  ◌∷◌, arith, if◌then◌else◌,
}
use oidc_test_idp.Json.{Json, null, bool, number, text, arr, obj, Items, Fields, end, field, Object}
use oidc_test_idp.Models.{ConditionalClaimRule}
use oidc_test_idp.Sample.Tree.{Tree, chr, node, same}

-- Numbers in binary, the lowest bit first.
bits : ℕ → ℕ → Tree
bits zero n = Tree.nil
bits (suc f) n =
    let rest = bits f (n / 2) in
    if ltb 0 n
    then (if ltb 0 (n % 2) then node (node Tree.nil Tree.nil) rest else node Tree.nil rest)
    else Tree.nil

pub nat : ℕ → Tree
unfolding bits
nat n = bits n n

bit : Tree → ℕ
bit Tree.nil = 0
bit _ = 1

pub un_nat : Tree → ℕ
unfolding bit
un_nat (node b t) = bit b + 2 * un_nat t
un_nat _ = 0

un_nat-bits : (f n : ℕ) → n ≤ f → un_nat (bits f n) ≡ n
unfolding un_nat bits
un_nat-bits zero n h = omega arith
un_nat-bits (suc f) n h = ground (arith, un_nat-bits f (n / 2))

pub un_nat-nat : (n : ℕ) → un_nat (nat n) ≡ n
unfolding nat
un_nat-nat n = un_nat-bits n n (omega arith)

boolean : Bool → Tree
boolean true = node Tree.nil Tree.nil
boolean false = Tree.nil

un_boolean : Tree → Bool
un_boolean (node a b) = true
un_boolean _ = false

pub string : String → Tree
string String.[] = Tree.nil
string (String.◌∷◌ c s) = node (chr c) (string s)

pub un_string : Tree → String
un_string (node (chr c) t) = String.◌∷◌ c (un_string t)
un_string _ = String.[]

pub un_string-string : (s : String) → un_string (string s) ≡ s
unfolding un_string string
un_string-string String.[] = refl
un_string-string (String.◌∷◌ c s) = ap (String.◌∷◌ c) (un_string-string s)

module _ {A : Type 0} (enc : A → Tree) (dec : Tree → A) where
  pub list : List A → Tree
  list [] = Tree.nil
  list (x ∷ xs) = node (enc x) (list xs)

  pub un_list : Tree → List A
  un_list (node a t) = dec a ∷ un_list t
  un_list _ = []

  pub un_list-list : ((x : A) → dec (enc x) ≡ x) → (xs : List A) → un_list (list xs) ≡ xs
  unfolding un_list list
  un_list-list h [] = refl
  un_list-list h (x ∷ xs) = cc (h x, un_list-list h xs)

pub strings : List String → Tree
strings = list string un_string

pub un_strings : Tree → List String
un_strings = un_list string un_string

pub un_strings-strings : (l : List String) → un_strings (strings l) ≡ l
unfolding un_strings strings
un_strings-strings = un_list-list string un_string un_string-string

-- The kind of a JSON value is the shape of its tree's first part.
mutual
  json : Json → Tree
  json null = Tree.nil
  json (bool b) = node Tree.nil (boolean b)
  json (number n) = node (chr "n") (nat n)
  json (text s) = node (chr "t") (string s)
  json (arr xs) = node (node Tree.nil Tree.nil) (items xs)
  json (obj fs) = node (node Tree.nil (chr "o")) (fields fs)

  items : Items → Tree
  items Items.nil = Tree.nil
  items (Items.cons x xs) = node (json x) (items xs)

  fields : Fields → Tree
  fields end = Tree.nil
  fields (field k v fs) = node (node (string k) (json v)) (fields fs)

scalar : Char → Tree → Json
scalar c t = if same (code c) b'n' then number (un_nat t) else text (un_string t)

mutual
  unfolding scalar

  un_json : Tree → Json
  un_json (node Tree.nil t) = bool (un_boolean t)
  un_json (node (chr c) t) = scalar c t
  un_json (node (node a Tree.nil) t) = arr (un_items t)
  un_json (node (node a b) t) = obj (un_fields t)
  un_json _ = null

  un_items : Tree → Items
  un_items (node a t) = Items.cons (un_json a) (un_items t)
  un_items _ = Items.nil

  un_fields : Tree → Fields
  un_fields (node (node k v) t) = field (un_string k) (un_json v) (un_fields t)
  un_fields _ = end

un_boolean-boolean : (b : Bool) → un_boolean (boolean b) ≡ b
unfolding un_boolean boolean
un_boolean-boolean true = refl
un_boolean-boolean false = refl

mutual
  unfolding json items fields un_json un_items un_fields

  un_json-json : (j : Json) → un_json (json j) ≡ j
  un_json-json null = refl
  un_json-json (bool b) = ap bool (un_boolean-boolean b)
  un_json-json (number n) = ap number (un_nat-nat n)
  un_json-json (text s) = ap text (un_string-string s)
  un_json-json (arr xs) = ap arr (un_items-items xs)
  un_json-json (obj fs) = ap obj (un_fields-fields fs)

  un_items-items : (xs : Items) → un_items (items xs) ≡ xs
  un_items-items Items.nil = refl
  un_items-items (Items.cons x xs) = cc (un_json-json x, un_items-items xs)

  un_fields-fields : (fs : Fields) → un_fields (fields fs) ≡ fs
  un_fields-fields end = refl
  un_fields-fields (field k v fs) = cc (un_string-string k, un_json-json v, un_fields-fields fs)

entry : String × Json → Tree
entry e = node (string e.0) (json e.1)

un_entry : Tree → String × Json
un_entry (node k v) = (un_string k, un_json v)
un_entry _ = ("", null)

un_entry-entry : (e : String × Json) → un_entry (entry e) ≡ e
unfolding un_entry entry
un_entry-entry (k, v) = cc (un_string-string k, un_json-json v)

pub object : Object → Tree
object = list entry un_entry

pub un_object : Tree → Object
un_object = un_list entry un_entry

pub un_object-object : (o : Object) → un_object (object o) ≡ o
unfolding un_object object
un_object-object = un_list-list entry un_entry un_entry-entry

rule : ConditionalClaimRule → Tree
rule r = node (string r.client_id) (node (strings r.scopes) (object r.claims))

un_rule : Tree → ConditionalClaimRule
un_rule (node c (node s o)) = record {
  client_id = un_string c;
  scopes = un_strings s;
  claims = un_object o;
}
un_rule _ = record { client_id = ""; scopes = []; claims = [] }

un_rule-rule : (r : ConditionalClaimRule) → un_rule (rule r) ≡ r
unfolding un_rule rule
un_rule-rule r = simp (un_string-string, un_strings-strings, un_object-object)

pub rules : List ConditionalClaimRule → Tree
rules = list rule un_rule

pub un_rules : Tree → List ConditionalClaimRule
un_rules = un_list rule un_rule

pub un_rules-rules : (l : List ConditionalClaimRule) → un_rules (rules l) ≡ l
unfolding un_rules rules
un_rules-rules = un_list-list rule un_rule un_rule-rule
