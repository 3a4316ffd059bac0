-- ===== src/Repo/Users/Subjects.antt =====
-- Which user a token's subject names: the custom subject goes first, then the row's id.
use oidc_test_idp.Prelude.{
  String, ◌==◌, eq_iff, eq_refl, ◌≡◌, ◌≢◌, ◌⊎◌, ◌∙◌, refl, sym, ap, Bool, none, some, [], ◌∷◌, All,
  arith, Bool-cases, inl, inr,
}
use oidc_test_idp.Table.{Table, get, find}
use oidc_test_idp.Models.{subject_or_id}
use oidc_test_idp.Platform.{Platform, Healthy}
use oidc_test_idp.Db.{UserRow, World, ok}
use oidc_test_idp.Repo.Users.{scan_user, get_user_by_subject}
use oidc_test_idp.Repo.Users.Runs.{get_user_by_subject-eq-owner_of}

abbrev pub has_subject : String → UserRow → Bool
has_subject sub row = row.subject == sub

-- Every row with that custom subject is the given one.
abbrev pub OnlyOwner : String → String → UserRow → Table UserRow → Type 0
OnlyOwner sub id row t = All (λ e. (e.1.subject ≡ sub) → (e.0 ≡ id) × (e.1 ≡ row)) t

find-owner :
    (sub id : String) (row : UserRow) (t : Table UserRow)
    → get id t ≡ some row
    → row.subject ≡ sub
    → OnlyOwner sub id row t
    → find (has_subject sub) t ≡ some (id, row)
unfolding get find
find-owner sub id row [] h e only = cc
find-owner sub id row ((i, r) ∷ t) h e (here, rest) = elim (Bool-cases (r.subject == sub)) [
  | inl same ↦ ground (arith, here ((eq_iff r.subject sub).0 same))
  | inr other ↦ ground (arith, eq_refl sub, find-owner sub id row t)
]

find-no_owner :
    (sub id : String) (row : UserRow) (t : Table UserRow)
    → row.subject ≢ sub
    → OnlyOwner sub id row t
    → find (has_subject sub) t ≡ none
unfolding find
find-no_owner sub id row [] h only = refl
find-no_owner sub id row ((i, r) ∷ t) h (here, rest) = elim (Bool-cases (r.subject == sub)) [
  | inl same ↦ ground (arith, here ((eq_iff r.subject sub).0 same), (eq_iff r.subject sub).0 same)
  | inr other ↦ ground (arith, find-no_owner sub id row t h rest)
]

module _ (p : Platform) (healthy : Healthy p) (id : String) (row : UserRow) (w : World)
    (stored : get id w.users ≡ some row) (named : id ≢ "") where
  abbrev sub : String
  sub = subject_or_id (scan_user p id row)

  resolve :
      (s : String)
      → s ≢ ""
      → (find (has_subject s) w.users ≡ some (id, row))
        ⊎ ((find (has_subject s) w.users ≡ none) × (s ≡ id))
      → (get_user_by_subject p s w).0 ≡ ok (scan_user p id row)
  resolve s h (inl e) = ground (arith, eq_iff s "", get_user_by_subject-eq-owner_of p healthy s w)
  resolve s h (inr (e, same)) = ground (
    arith,
    eq_iff s "",
    get_user_by_subject-eq-owner_of p healthy s w,
    ap (λ (k : String). get k w.users) same,
  )

  sub-plain : row.subject ≡ "" → sub ≡ id
  unfolding subject_or_id scan_user
  sub-plain e = ground (arith, eq_iff row.subject "")

  sub-custom : row.subject ≢ "" → sub ≡ row.subject
  unfolding subject_or_id scan_user
  sub-custom h = ground (arith, eq_iff row.subject "")

  -- While the driver works, the subject that the tokens of a stored user carry names that user
  -- again, if the id is not empty and no other row has that subject as custom subject.
  pub get_user_by_subject-subject_or_id :
      OnlyOwner sub id row w.users → (get_user_by_subject p sub w).0 ≡ ok (scan_user p id row)
  get_user_by_subject-subject_or_id only = elim (Bool-cases (row.subject == "")) [
    | inl plain ↦
        let e = sub-plain ((eq_iff _ _).0 plain) in
        let bare : row.subject ≢ id = λ h. named (sym h ∙ (eq_iff _ _).0 plain) in
        let free = find-no_owner sub id row w.users (λ h. bare (h ∙ e)) only in
        resolve sub (λ h. named (sym e ∙ h)) (inr (free, e))
    | inr custom ↦
        let h : row.subject ≢ "" = ground (arith, eq_iff row.subject "") in
        let e = sub-custom h in
        resolve sub (λ f. h (sym e ∙ f)) (inl (find-owner sub id row w.users stored (sym e) only))
  ]
