-- ===== src/Prelude/Text.antt =====
-- The functions of package strings that the code uses.
use Prim.Native.Nat.{ℕ, compare, Ordering}
use Prim.Native.Char.{code}
use Prim.Native.String
use Prim.Native.String.{String}
use mathlib.Core.Bool.{Bool, true, false, ◌&&◌, ◌||◌}
use mathlib.Core.List.{List, [], ◌∷◌}
use text.Mathlib.Text.{◌==◌}
use oidc_test_idp.Prelude.Tests.{leb, if◌then◌else◌}

abbrev pub same : ℕ → ℕ → Bool
same a b = elim (compare a b) [ Ordering.eq ↦ true | _ ↦ false ]

-- `strings.HasSuffix(s, suffix)`
unfoldable pub has_suffix : String → String → Bool
has_suffix String.[] suffix = "" == suffix
has_suffix (String.◌∷◌ c s) suffix = String.◌∷◌ c s == suffix || has_suffix s suffix

-- `unicode.IsSpace`
unfoldable pub is_space : ℕ → Bool
is_space c =
    (leb 9 c && leb c 13)
    || same c 32
    || same c 0x85
    || same c 0xa0
    || same c 0x1680
    || (leb 0x2000 c && leb c 0x200a)
    || same c 0x2028
    || same c 0x2029
    || same c 0x202f
    || same c 0x205f
    || same c 0x3000

abbrev closed : String → List String → List String
closed word words = if word == "" then words else word ∷ words

-- `strings.FieldsFunc`, from inside a word.
unfoldable pub fields_by : (ℕ → Bool) → String → String → List String
fields_by cut word String.[] = closed word []
fields_by cut word (String.◌∷◌ c s) =
    let next = fields_by cut "" s in
    let longer = fields_by cut (String.◌++◌ word (String.◌∷◌ c "")) s in
    if cut (code c) then closed word next else longer

-- `strings.Fields`
unfoldable pub fields : String → List String
unfolding fields_by is_space
fields s = fields_by is_space "" s

-- `strings.TrimRight(s, "/")`
unfoldable pub trim_slashes : String → String
trim_slashes String.[] = ""
trim_slashes (String.◌∷◌ c s) =
    let rest = trim_slashes s in if rest == "" && same (code c) b'/' then "" else String.◌∷◌ c rest

-- `s + t`
abbrev pub append : String → String → String
append s t = String.◌++◌ s t
