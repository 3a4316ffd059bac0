-- ===== src/Admin/Settings/Applied.antt =====
-- From the settings form to the discovery document.
use oidc_test_idp.Prelude.{
  String, ◌==◌, ◌≡◌, refl, true, false, Option, some, List, [], arith, if◌then◌else◌, Bool-cases,
  inl, inr,
}
use mathlib.Core.Path.{subst}
use oidc_test_idp.Prelude.Split.{trim_space}
use oidc_test_idp.Table.{put, get-put}
use oidc_test_idp.Json.{Object}
use oidc_test_idp.Platform.{Platform, Healthy}
use oidc_test_idp.Http.{HttpRequest, Write}
use oidc_test_idp.Db.{Db, World, ok, M}
use oidc_test_idp.Db.Statements.{exec_lem}
use oidc_test_idp.Repo.Settings.{set_setting}
use oidc_test_idp.Discovery.{discovery_path, discovery_override_setting, discovery_override}
use oidc_test_idp.Discovery
use oidc_test_idp.Discovery.Merged.{
  IsRewritten, object_or_empty, overrides, discovery_override-IsRewritten,
}
use oidc_test_idp.Admin.{redirected}
use oidc_test_idp.Admin.Settings.{override_of, store_override, save_settings}

module _ (p : Platform) (healthy : Healthy p) where
  save_settings_lem :
      (r : HttpRequest) (w : World)
      → r.parses ≡ true
      → (p.unmarshal_object (override_of p (r.form "discovery_override"))).1 ≡ true
      → ((save_settings p r w).0 ≡ ok (redirected "/admin/settings"))
        × ((save_settings p r w).1.db ≡ record w.db {
          settings =
              put discovery_override_setting
                (override_of p (r.form "discovery_override"))
                w.settings;
        })
  unfolding save_settings store_override set_setting
  save_settings_lem r w parses valid = (
    ground (
      arith,
      parses,
      valid,
      exec_lem p healthy
          (λ d. some (record d {
            settings =
                put discovery_override_setting (override_of p (r.form "discovery_override"))
                  d.settings;
          }))
          w,
    ),
    ground (
      arith,
      parses,
      valid,
      exec_lem p healthy
          (λ d. some (record d {
            settings =
                put discovery_override_setting (override_of p (r.form "discovery_override"))
                  d.settings;
          }))
          w,
    ),
  )

  module _ (decode : String → Option (Option Object))
      (downstream : HttpRequest → M (List Write)) where
    -- The overrides that a stored text stands for.
    abbrev pub overrides_of : String → Object
    overrides_of raw =
        if raw == "{}" then [] else object_or_empty p healthy decode downstream (decode raw)

    override_of-full : (text : String) → (override_of p text == "") ≡ false
    unfolding override_of
    override_of-full text = elim (Bool-cases (trim_space text == "")) [
      | inl e ↦ rw e refl
      | inr e ↦ rw (e, e) refl
    ]

    overrides_lem :
        (d : HttpRequest) (text : String) (before after : Db)
        → d.path ≡ discovery_path
        → after ≡ record before {
          settings = put discovery_override_setting (override_of p text) before.settings;
        }
        → overrides p healthy decode downstream d after ≡ overrides_of (override_of p text)
    overrides_lem d text before after here same =
        rw
          (
            same,
            here,
            get-put discovery_override_setting discovery_override_setting (override_of p text)
                before.settings,
            override_of-full text,
          )
          refl

    -- While the driver works, a settings form that parses with a valid override redirects, and
    -- from then on a request for the discovery document, whose handler writes ws in every world
    -- with that database, is answered as the saved override demands: an empty one passes the
    -- writes; another one is merged over a document that is an object, with the first status that
    -- was written, or 200 if none was before the body; a document that does not decode is replayed
    -- with that status, all of its body and its headers.
    pub save_settings-IsRewritten :
        (r d : HttpRequest) (w : World) (ws : List Write)
        → r.parses ≡ true
        → (p.unmarshal_object (override_of p (r.form "discovery_override"))).1 ≡ true
        → d.path ≡ discovery_path
        → ((v : World) → v.db ≡ (save_settings p r w).1.db → (downstream d v).0 ≡ ok ws)
        → ((save_settings p r w).0 ≡ ok (redirected "/admin/settings"))
          × ((a : Discovery.Answer) × ((discovery_override p decode downstream d
                  (save_settings p r w).1).0
                ≡ ok a)
              × IsRewritten p healthy decode downstream
                  (overrides_of (override_of p (r.form "discovery_override")))
                  ws
                  a)
    save_settings-IsRewritten r d w ws parses valid here steady =
        let (answer, after) = save_settings_lem r w parses valid in
        let (a, e, rewritten) =
          discovery_override-IsRewritten p healthy decode downstream d (save_settings p r w).1 ws
            steady in
        (
          answer,
          (
            a,
            e,
            subst (λ o. IsRewritten p healthy decode downstream o ws a)
                (overrides_lem d (r.form "discovery_override") w.db (save_settings p r w).1.db here
                  after)
                rewritten,
          ),
        )
