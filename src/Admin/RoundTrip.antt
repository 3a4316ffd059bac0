-- ===== src/Admin/RoundTrip.antt =====
-- joinResponseTypes and joinGrantTypes of internal/admin/admin.go, and their parsers.

use Prim.Native.String.{◌++◌}
use text.Mathlib.TextLemmas.{nil-append, cons-append}
use oidc_test_idp.Prelude.{
  ℕ, String, eq_iff, ◌≡◌, ◌≢◌, refl, ap, ◌∙◌, false, ◌||◌, List, [], ◌∷◌, arith, map, Bool-cases,
  inl, inr, All,
}
use oidc_test_idp.Prelude.Text.{append, same}
use oidc_test_idp.Prelude.Split.{split, join, trim_left, trim_right, trim, trim_space, contains}
use oidc_test_idp.Admin.Forms.{
  kept, unquoted, quoted, parse_response_types, parse_grant_types, join_response_types,
  join_grant_types,
}

-- A type that a comma-separated list carries.
abbrev pub IsPlain : String → Type 0
IsPlain t = (t ≢ "") × (contains b',' t ≡ false) × (trim_space t ≡ t)

-- One that quotes carry, too.
abbrev pub IsQuotable : String → Type 0
IsQuotable t = IsPlain t × (contains b'"' t ≡ false)

split-plain : (w : String) → contains b',' w ≡ false → split b',' w ≡ w ∷ []
unfolding split contains
split-plain String.[] h = refl
split-plain (String.◌∷◌ c s) h = ground (arith, split-plain s)

split-comma :
    (w r : String) → contains b',' w ≡ false → split b',' (w ++ ("," ++ r)) ≡ w ∷ split b',' r
unfolding split contains
split-comma String.[] r h = rw (nil-append ("," ++ r), cons-append "," "" r, nil-append r) refl
split-comma (String.◌∷◌ c s) r h = rw (cons-append c s ("," ++ r)) (ground (arith, split-comma s r))

contains-append : (d : ℕ) (s t : String) → contains d (s ++ t) ≡ (contains d s || contains d t)
unfolding contains
contains-append d String.[] t = rw (nil-append t) refl
contains-append d (String.◌∷◌ c s) t =
    rw (cons-append c s t) (ground (arith, contains-append d s t))

-- Parts without a comma come out of the joined text.
split-join :
    (w : String) (ws : List String)
    → All (λ t. contains b',' t ≡ false) (w ∷ ws)
    → split b',' (join "," (w ∷ ws)) ≡ w ∷ ws
unfolding join
split-join w [] (h, _) = split-plain w h
split-join w (v ∷ ws) (h, k) =
    split-comma w (join "," (v ∷ ws)) h ∙ ap (λ l. w ∷ l) (split-join v ws k)

-- Written parts that a clean-up reads back are all kept.
kept-written :
    (clean write : String → String) (ws : List String)
    → All (λ t. (t ≢ "") × (clean (write t) ≡ t)) ws
    → kept clean (map write ws) ≡ ws
unfolding kept
kept-written clean write [] h = refl
kept-written clean write (w ∷ ws) ((full, same), h) =
    ground (arith, eq_iff w "", kept-written clean write ws h)

All-weaken :
    (P Q : String → Type 0) → ((t : String) → P t → Q t) → (ts : List String) → All P ts → All Q ts
All-weaken P Q k [] h = tt
All-weaken P Q k (t ∷ ts) (h, hs) = (k t h, All-weaken P Q k ts hs)

kept-trimmed : (ws : List String) → All IsPlain ws → kept trim_space ws ≡ ws
unfolding kept
kept-trimmed [] h = refl
kept-trimmed (w ∷ ws) ((full, no_comma, trimmed), h) =
    ground (arith, eq_iff w "", kept-trimmed ws h)

All-map :
    (P Q : String → Type 0) (f : String → String)
    → ((t : String) → P t → Q (f t))
    → (ts : List String) → All P ts
    → All Q (map f ts)
All-map P Q f k [] h = tt
All-map P Q f k (t ∷ ts) (h, hs) = (k t h, All-map P Q f k ts hs)

trim_left-lacks : (d : ℕ) (s : String) → contains d s ≡ false → trim_left (λ c. same c d) s ≡ s
unfolding trim_left contains
trim_left-lacks d String.[] h = refl
trim_left-lacks d (String.◌∷◌ c s) h = ground arith

trim_right-lacks : (d : ℕ) (s : String) → contains d s ≡ false → trim_right (λ c. same c d) s ≡ s
unfolding trim_right contains
trim_right-lacks d String.[] h = refl
trim_right-lacks d (String.◌∷◌ c s) h = ground (arith, trim_right-lacks d s)

trim_right-append :
    (s : String) → trim_right (λ c. same c b'"') (s ++ "\"") ≡ trim_right (λ c. same c b'"') s
unfolding trim_right
trim_right-append String.[] = refl
trim_right-append (String.◌∷◌ c s) = rw (cons-append c s "\"") (ground (arith, trim_right-append s))

trim_left-quote :
    (s : String) → trim_left (λ c. same c b'"') ("\"" ++ s) ≡ trim_left (λ c. same c b'"') s
unfolding trim_left
trim_left-quote s = rw (cons-append "\"" "" s, nil-append s) refl

trim_left-append :
    (t r : String)
    → t ≢ ""
    → contains b'"' t ≡ false
    → trim_left (λ c. same c b'"') (t ++ r) ≡ t ++ r
unfolding trim_left contains
trim_left-append String.[] r full h = ground (arith, full refl)
trim_left-append (String.◌∷◌ c s) r full h = rw (cons-append c s r) (ground arith)

trim-quotes :
    (t : String)
    → t ≢ ""
    → contains b'"' t ≡ false
    → trim (λ c. same c b'"') (append "\"" (append t "\"")) ≡ t
unfolding trim
trim-quotes t full h =
    rw (trim_left-quote (append t "\""), trim_left-append t "\"" full h, trim_right-append t)
      (trim_right-lacks b'"' t h)

unquoted-quoted : (t : String) → IsQuotable t → unquoted (quoted t) ≡ t
unfolding unquoted quoted trim
unquoted-quoted t ((full, no_comma, trimmed), h) = elim (Bool-cases (contains b' ' t)) [
  | inl e ↦ rw (e, trim-quotes t full h) trimmed
  | inr e ↦ rw (e, trim_left-lacks b'"' t h, trim_right-lacks b'"' t h) trimmed
]

comma-quoted : (t : String) → contains b',' t ≡ false → contains b',' (quoted t) ≡ false
unfolding quoted
comma-quoted t h = elim (Bool-cases (contains b' ' t)) [
  | inl e ↦ rw (e, contains-append b',' "\"" (append t "\""), contains-append b',' t "\"", h) refl
  | inr e ↦ rw e h
]

-- The response types that the client form shows are read back as they were, if there is one and
-- each is not empty, has no comma and no quote and no space at its ends.
pub parse-join_response_types :
    (t : String) (ts : List String)
    → All IsQuotable (t ∷ ts)
    → parse_response_types (join_response_types (t ∷ ts)) ≡ t ∷ ts
unfolding parse_response_types join_response_types
parse-join_response_types t ts h =
    rw
      (
        split-join (quoted t) (map quoted ts) (
            All-map IsQuotable (λ r. contains b',' r ≡ false) quoted (λ r q. comma-quoted r q.0.1)
              (t ∷ ts) h),
        kept-written unquoted quoted (t ∷ ts) (
            All-weaken IsQuotable (λ r. (r ≢ "") × (unquoted (quoted r) ≡ r))
              (λ r q. (q.0.0, unquoted-quoted r q)) (t ∷ ts) h),
      )
      refl

-- The grant types that the client form shows are read back as they were, if there is one and each
-- is not empty, has no comma and no space at its ends.
parse-join_grant_types :
    (t : String) (ts : List String)
    → All IsPlain (t ∷ ts)
    → parse_grant_types (join_grant_types (t ∷ ts)) ≡ t ∷ ts
unfolding parse_grant_types join_grant_types
parse-join_grant_types t ts h =
    rw
      (
        split-join t ts (All-weaken IsPlain (λ r. contains b',' r ≡ false) (λ r q. q.1) (t ∷ ts) h),
        kept-trimmed (t ∷ ts) h,
      )
      refl
