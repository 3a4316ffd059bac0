-- ===== src/Admin/Forms.antt =====
-- The texts of the admin forms (the helpers of internal/admin/admin.go).
use oidc_test_idp.Prelude.{
  ℕ, String, ◌==◌, Bool, ◌||◌, none, some, List, [], ◌∷◌, if◌then◌else◌, ℤ, map,
}
use oidc_test_idp.Prelude.Text.{append, same, fields_by}
use oidc_test_idp.Prelude.Split.{split, join, trim, trim_space, contains, atoi_value}

abbrev pub is_comma_space : ℕ → Bool
is_comma_space c = same c b',' || same c b' ' || same c 9 || same c 10

unfoldable pub split_comma_space : String → List String
unfolding fields_by
split_comma_space s = fields_by is_comma_space "" s

-- The parts that a clean-up leaves something of.
unfoldable pub kept : (String → String) → List String → List String
kept clean [] = []
kept clean (part ∷ parts) =
    let rest = kept clean parts in if clean part == "" then rest else clean part ∷ rest

unfoldable pub split_lines : String → List String
unfolding split kept trim_space
split_lines s = kept trim_space (split 10 s)

abbrev pub or_else : List String → List String → List String
or_else def [] = def
or_else def (x ∷ xs) = x ∷ xs

-- `strings.TrimSpace(strings.Trim(p, "\""))`
unfoldable pub unquoted : String → String
unfolding trim trim_space
unquoted part = trim_space (trim (λ c. same c b'"') part)

unfoldable pub parse_response_types : String → List String
unfolding split kept unquoted
parse_response_types s = or_else ("code" ∷ []) (kept unquoted (split b',' s))

unfoldable pub parse_grant_types : String → List String
unfolding split kept trim_space
parse_grant_types s = or_else ("authorization_code" ∷ []) (kept trim_space (split b',' s))

unfoldable pub quoted : String → String
unfolding contains
quoted rt = if contains b' ' rt then append "\"" (append rt "\"") else rt

unfoldable pub join_response_types : List String → String
unfolding join quoted
join_response_types rts = join "," (map quoted rts)

unfoldable pub join_grant_types : List String → String
unfolding join
join_grant_types gts = join "," gts

unfoldable pub or_default : String → String → String
unfolding trim_space
or_default v def = if trim_space v == "" then def else v

unfoldable pub atoi : String → ℤ → ℤ
unfolding trim_space atoi_value
atoi s def = elim (atoi_value (trim_space s)) [ none ↦ def | some n ↦ n ]
