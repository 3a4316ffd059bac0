-- ===== src/Sample/Tree.antt =====
-- Trees of characters, printed and read back.
use Prim.Native.Char.{Char, code}
use oidc_test_idp.Prelude.{
  ℕ, String, ◌≡◌, ◌≢◌, ◌∙◌, refl, ap, Bool, true, false, List, [], ◌∷◌, if◌then◌else◌,
}
use Prim.Native.Nat.{compare, Ordering}
use text.Mathlib.TextLemmas.{cons-ne-nil}

pub data Tree : Type 0 where
  nil : Tree
  chr : Char → Tree
  node : Tree → Tree → Tree

pub print : Tree → String → String
print nil s = String.◌∷◌ "n" s
print (chr c) s = String.◌∷◌ "c" (String.◌∷◌ c s)
print (node a b) s = String.◌∷◌ "p" (print a (print b s))

abbrev pub same : ℕ → ℕ → Bool
same a b = elim (compare a b) [ Ordering.eq ↦ true | _ ↦ false ]

pair : List Tree → List Tree
pair [] = []
pair (a ∷ []) = []
pair (a ∷ b ∷ stack) = node a b ∷ stack

-- The stack of trees that a text prints; `quoted` after a "c".
scan : String → Bool → List Tree
unfolding pair
scan String.[] quoted = []
scan (String.◌∷◌ x s) true = chr x ∷ scan s false
scan (String.◌∷◌ x s) false =
    let rest = scan s false in
    let escaped = scan s true in
    if same (code x) b'c' then escaped else if same (code x) b'n' then nil ∷ rest else pair rest

scan-print : (t : Tree) (s : String) → scan (print t s) false ≡ t ∷ scan s false
unfolding print scan
scan-print nil s = refl
scan-print (chr c) s = refl
scan-print (node a b) s = ap pair (scan-print a (print b s) ∙ ap (◌∷◌ a) (scan-print b s))

first : List Tree → Tree
first [] = nil
first (t ∷ stack) = t

pub read : String → Tree
unfolding first
read s = first (scan s false)

pub read-print : (t : Tree) → read (print t "") ≡ t
unfolding read
read-print t = ap first (scan-print t "")

pub print-ne-nil : (t : Tree) (s : String) → print t s ≢ ""
unfolding print
print-ne-nil nil s = cons-ne-nil _ _
print-ne-nil (chr c) s = cons-ne-nil _ _
print-ne-nil (node a b) s = cons-ne-nil _ _
