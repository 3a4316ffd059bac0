-- ===== src/Discovery/Merged.antt =====
-- What the overrides make of the discovery document.
use oidc_test_idp.Prelude.{
  String, ◌==◌, ◌≡◌, ◌≢◌, refl, ◌||◌, Option, none, some, List, [], ◌∷◌, arith, if◌then◌else◌, inl,
  inr, Option-cases, Bool-cases,
}
use oidc_test_idp.Table.{get}
use oidc_test_idp.Json.{Json, Object, merge, or_else, get-merge}
use oidc_test_idp.Http.{HttpRequest, Write}
use oidc_test_idp.Platform.{Platform, Healthy}
use oidc_test_idp.Db.{World, Db, Result, ok, M}
use oidc_test_idp.Db.Statements.{counted_on, query_lem}
use oidc_test_idp.Repo.Settings.{get_setting}
use oidc_test_idp.Discovery.Written.{
  first_status, whole_body, all_headers, fresh-body, fresh-header, fresh-status_code,
}
use oidc_test_idp.Discovery.{
  BufferWriter, or_nothing, discovery_path, discovery_override_setting, buffer_all, fresh_buffer,
  Answer, passed, replayed, answered, rewrite_document, apply_override, discovery_override,
}

module _ (p : Platform) (healthy : Healthy p) (decode : String → Option (Option Object))
    (downstream : HttpRequest → M (List Write)) where
  abbrev pub object_or_empty : Option (Option Object) → Object
  object_or_empty (some (some o)) = o
  object_or_empty _ = []

  abbrev pub decoded_setting : Option String → Object
  decoded_setting none = []
  decoded_setting (some raw) = if raw == "" || raw == "{}" then [] else object_or_empty (decode raw)

  -- The overrides in force for a request: those of the setting, at the discovery endpoint alone.
  abbrev pub overrides : HttpRequest → Db → Object
  overrides r d =
      if r.path == discovery_path
      then decoded_setting (get discovery_override_setting d.settings)
      else []

  -- How an answer comes from the overrides in force and what the wrapped handler writes. Without
  -- overrides the writes pass; a document that is a JSON object gets the overrides, which win, and
  -- keeps the status that was written first; one that is no JSON text of an object is
  -- replayed with its status, body and headers.
  pub record IsRewritten (override : Object) (ws : List Write) (answer : Answer) : Type 0 where
    pub plain : override ≡ [] → answer ≡ passed ws
    pub merged :
        (doc : Object)
        → override ≢ []
        → decode (whole_body ws) ≡ some (some doc)
        → (document : Object) × (answer
            ≡ answered (first_status ws) (or_nothing (p.marshal_object document)))
          × ((k : String) → get k document ≡ or_else (get k override) (get k doc))
    pub verbatim :
        override ≢ []
        → decode (whole_body ws) ≡ none
        → (b : BufferWriter) × (answer ≡ replayed b)
          × (b.status_code ≡ first_status ws)
          × (b.body ≡ whole_body ws)
          × (b.header ≡ all_headers [] ws)

  passed-IsRewritten : (ws : List Write) → IsRewritten [] ws (passed ws)
  passed-IsRewritten ws = record {
    plain = λ e. refl;
    merged = λ doc h e. absurd (h refl);
    verbatim = λ h e. absurd (h refl);
  }

  rewrite_document-IsRewritten :
      (e : String × Json) (o : Object) (ws : List Write)
      → IsRewritten
          (e ∷ o)
          ws
          (rewrite_document p decode downstream (e ∷ o) (buffer_all fresh_buffer ws))
  unfolding rewrite_document
  rewrite_document-IsRewritten e o ws = record {
    plain = λ h. cc;
    merged = λ doc h f. (
      merge doc (e ∷ o),
      ground (arith, f, fresh-body ws, fresh-status_code ws),
      λ k. get-merge k doc (e ∷ o),
    );
    verbatim = λ h f. (
      buffer_all fresh_buffer ws,
      ground (arith, f, fresh-body ws),
      fresh-status_code ws,
      fresh-body ws,
      fresh-header ws,
    );
  }

  module _ (r : HttpRequest) (w : World) (ws : List Write)
      (steady : (v : World) → v.db ≡ w.db → (downstream r v).0 ≡ ok ws) where
    -- The answer of the middleware once the overrides are known.
    abbrev Rewrites : Object → Result Answer → Type 0
    Rewrites o result = (a : Answer) × (result ≡ ok a) × IsRewritten o ws a

    apply_override-Rewrites :
        (o : Option (Option Object)) (v : World)
        → v.db ≡ w.db
        → Rewrites (object_or_empty o) (apply_override p decode downstream r o v).0
    unfolding apply_override
    apply_override-Rewrites none v e =
        (passed ws, ground (arith, steady v e), passed-IsRewritten ws)
    apply_override-Rewrites (some none) v e =
        (passed ws, ground (arith, steady v e), passed-IsRewritten ws)
    apply_override-Rewrites (some (some [])) v e =
        (passed ws, ground (arith, steady v e), passed-IsRewritten ws)
    apply_override-Rewrites (some (some (x ∷ o))) v e = (
      rewrite_document p decode downstream (x ∷ o) (buffer_all fresh_buffer ws),
      ground (arith, steady v e),
      rewrite_document-IsRewritten x o ws,
    )

    get_setting_unset :
        (key : String) → get key w.settings ≡ none → get_setting p key "" w ≡ (ok "", counted_on w)
    unfolding get_setting
    get_setting_unset key h = ground (arith, query_lem p healthy (λ d. get key d.settings) w)

    get_setting_set :
        (key raw : String)
        → get key w.settings ≡ some raw
        → get_setting p key "" w ≡ (ok raw, counted_on w)
    unfolding get_setting
    get_setting_set key raw h = ground (arith, query_lem p healthy (λ d. get key d.settings) w)

    -- While the driver works and the wrapped handler writes ws in every world with this database,
    -- the middleware answers as the overrides in force demand, which are those of the setting at
    -- the discovery endpoint and none elsewhere: without overrides the writes pass; a document
    -- that is an object, all that was written together, is answered with the first status that was
    -- written, or 200 if none was before the body, each entry from the overrides or else from the
    -- document; one that does not decode is replayed with that status, all of its body and its
    -- headers.
    pub discovery_override-IsRewritten :
        (a : Answer) × ((discovery_override p decode downstream r w).0 ≡ ok a)
        × IsRewritten (overrides r w.db) ws a
    unfolding discovery_override
    discovery_override-IsRewritten = elim (Bool-cases (r.path == discovery_path)) [
      | inr away ↦ (passed ws, ground (arith, steady w refl), rw away (passed-IsRewritten ws))
      | inl here ↦ elim (Option-cases (get discovery_override_setting w.settings)) [
        | inl unset ↦ (
          passed ws,
          ground (
            arith,
            get_setting_unset discovery_override_setting unset,
            steady (counted_on w) refl,
          ),
          rw (here, unset) (passed-IsRewritten ws),
        )
        | inr (raw, set) ↦ elim (Bool-cases (raw == "" || raw == "{}")) [
          | inl blank ↦ (
            passed ws,
            ground (
              arith,
              get_setting_set discovery_override_setting raw set,
              steady (counted_on w) refl,
            ),
            rw (here, set, blank) (passed-IsRewritten ws),
          )
          | inr full ↦
              let (a, e, f) = apply_override-Rewrites (decode raw) (counted_on w) refl in
              (
                a,
                ground (arith, get_setting_set discovery_override_setting raw set, e),
                rw (here, set, full) f,
              )
        ]
      ]
    ]
