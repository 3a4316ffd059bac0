-- ===== src/Prelude/Split.antt =====
-- Splitting, joining and trimming texts (package strings), and strconv.Atoi.
use Prim.Native.Nat.{ℕ, suc, zero, ◌+◌, ◌-◌, ◌*◌, ◌^◌}
use Prim.Native.Char.{Char, code}
use Prim.Native.String
use Prim.Native.String.{String}
use mathlib.Core.Bool.{Bool, false, ◌&&◌, ◌||◌}
use mathlib.Core.List.{List, [], ◌∷◌}
use mathlib.Core.Option.{Option, none, some}
use text.Mathlib.Text.{◌==◌}
use oidc_test_idp.Prelude.Int.{ℤ, pos, negsuc}
use oidc_test_idp.Prelude.Tests.{leb, if◌then◌else◌}
use oidc_test_idp.Prelude.Text.{same, is_space}

-- A rune before the first part.
abbrev pub into_first : Char → List String → List String
into_first c [] = String.◌∷◌ c "" ∷ []
into_first c (w ∷ ws) = String.◌∷◌ c w ∷ ws

-- `strings.Split(s, sep)` at a separator of one rune.
unfoldable pub split : ℕ → String → List String
split sep String.[] = "" ∷ []
split sep (String.◌∷◌ c s) =
    let rest = split sep s in if same (code c) sep then "" ∷ rest else into_first c rest

-- `strings.Join(ws, sep)`
unfoldable pub join : String → List String → String
join sep [] = ""
join sep (w ∷ []) = w
join sep (w ∷ v ∷ ws) = String.◌++◌ w (String.◌++◌ sep (join sep (v ∷ ws)))

unfoldable pub trim_left : (ℕ → Bool) → String → String
trim_left cut String.[] = ""
trim_left cut (String.◌∷◌ c s) =
    let rest = trim_left cut s in if cut (code c) then rest else String.◌∷◌ c s

unfoldable pub trim_right : (ℕ → Bool) → String → String
trim_right cut String.[] = ""
trim_right cut (String.◌∷◌ c s) =
    let rest = trim_right cut s in if rest == "" && cut (code c) then "" else String.◌∷◌ c rest

-- `strings.TrimFunc`, of which `Trim` and `TrimSpace` are cases.
unfoldable pub trim : (ℕ → Bool) → String → String
unfolding trim_left trim_right
trim cut s = trim_right cut (trim_left cut s)

-- `strings.TrimSpace(s)`
unfoldable pub trim_space : String → String
unfolding trim is_space
trim_space s = trim is_space s

-- Whether a rune is in the text.
unfoldable pub contains : ℕ → String → Bool
contains d String.[] = false
contains d (String.◌∷◌ c s) = same (code c) d || contains d s

-- A number in decimal digits, after the value of the digits before.
unfoldable pub digits_from : ℕ → String → Option ℕ
digits_from n String.[] = some n
digits_from n (String.◌∷◌ c s) =
    let rest = digits_from (10 * n + (code c - b'0')) s in
    if leb b'0' (code c) && leb (code c) b'9' then rest else none

abbrev positive : Option ℕ → Option ℤ
positive none = none
positive (some n) = if leb (suc n) (2 ^ 63) then some (pos n) else none

abbrev negative : Option ℕ → Option ℤ
negative none = none
negative (some zero) = some (pos 0)
negative (some (suc n)) = if leb (suc n) (2 ^ 63) then some (negsuc n) else none

-- A number of at least one digit.
abbrev digits : String → Option ℕ
digits String.[] = none
digits (String.◌∷◌ c s) = digits_from 0 (String.◌∷◌ c s)

-- `strconv.Atoi(s)`: none where it fails, which a value out of an int64 does.
unfoldable pub atoi_value : String → Option ℤ
unfolding digits_from
atoi_value String.[] = none
atoi_value (String.◌∷◌ c s) =
    if same (code c) b'-'
    then negative (digits s)
    else if same (code c) b'+'
    then positive (digits s)
    else positive (digits (String.◌∷◌ c s))
