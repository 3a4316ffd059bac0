-- ===== src/Json.antt =====
-- JSON values and Go maps from names to them (`map[string]any`), as claims use them.
-- A map is an association list; a store (`m[k] = v`) replaces or adds, and what a client can see
-- of a map is `Object.get`. A number is a float64, carried as its 64 bits.
use oidc_test_idp.Prelude.{
  ℕ, String, ◌≡◌, refl, Bool, Option, none, some, List, [], ◌∷◌, arith, ◌==◌, if◌then◌else◌,
}
use oidc_test_idp.Table.{get, put, get-put}

mutual
  pub data Json : Type 0 where
    null : Json
    bool : Bool → Json
    number : ℕ → Json
    text : String → Json
    arr : Items → Json
    obj : Fields → Json

  pub data Items : Type 0 where
    nil : Items
    cons : Json → Items → Items

  pub data Fields : Type 0 where
    end : Fields
    field : String → Json → Fields → Fields

-- `m[k]` of a nested object.
unfoldable pub field? : String → Fields → Option Json
field? k end = none
field? k (field j v fs) = if j == k then some v else field? k fs

abbrev pub Object : Type 0
Object = List (String × Json)

-- `for k, v := range b { a[k] = v }`. Go leaves the order of the range open; this is one of them.
unfoldable pub merge : Object → Object → Object
merge a [] = a
merge a ((k, v) ∷ b) = put k v (merge a b)

-- The second argument, or else the first.
abbrev pub or_else {ℓ} : {A : Type ℓ} → Option A → Option A → Option A
or_else (some a) o = some a
or_else none o = o

-- What the merged map holds at a name: the entry of `b`, or else that of `a`.
pub get-merge : (k : String) (a b : Object) → get k (merge a b) ≡ or_else (get k b) (get k a)
unfolding merge get
get-merge k a [] = refl
get-merge k a ((j, v) ∷ b) = ground (arith, get-put j k v (merge a b), get-merge k a b)
