-- ===== src/Flags/Api/Outcome.antt =====
-- What the answers of internal/api/manage.go say of the store.
use saas_reaper.Base.{
  ℕ, String, ◌≡◌, ◌≢◌, refl, sym, ap, ◌∙◌, subst, inl, inr, Bool, true, false, not, ◌&&◌, Option,
  none, some, [], ◌∷◌, ◌++◌, ◌==◌, eq_iff, Result, ok, err, arith, Bool-cases,
}
use saas_reaper.Base.Int64.{ℤ}
use saas_reaper.Flags.Flag.{Error, conflict, invalid, not_found, other, Flag, copy}
use saas_reaper.Flags.Authority.{Authority, entry_of}
use saas_reaper.Flags.Service.{Service}
use saas_reaper.Flags.Service
use saas_reaper.Flags.Service.Publish.{publish-eq-ok, publish-eq-err}
use saas_reaper.Flags.Api.Routes.{
  Wire, Route, health, list_audit, publish_flag, list_environment, evaluate_flag,
  evaluate_environment, Request, PublishRequest, flag_reply, write_json, Server, authorized,
  only_value,
}
use saas_reaper.Flags.Api.Manage.{Handled, published, publish_decoded, publish, error_status}
use saas_reaper.Flags.Api.Separation.{management, is_publish, serve-unauthorized, serve_reads}
use saas_reaper.Flags.Api.{authorize, serve, handle}

error_status-≢-200 : (e : Error) → error_status e ≢ 200
unfolding error_status
error_status-≢-200 conflict h = omega (arith, h)
error_status-≢-200 invalid h = omega (arith, h)
error_status-≢-200 not_found h = omega (arith, h)
error_status-≢-200 other h = omega (arith, h)

module _ (wire : Wire) (authority : Authority) where
  open wire use {Bytes, decode_publish}
  open authority use {stored, log}

  -- The service shows what it showed before.
  abbrev pub Keeps : Service authority → Service authority → Type 0
  Keeps before after =
      ((e k : String) → stored after.store e k ≡ stored before.store e k)
      × (log after.store ≡ log before.store)
      × (after.snapshot ≡ before.snapshot)

  Keeps-same : (before after : Service authority) → after ≡ before → Keeps before after
  Keeps-same before after same = (
    λ e k. ap (λ (t : Service authority). stored t.store e k) same,
    ap (λ (t : Service authority). log t.store) same,
    ap Service.snapshot same,
  )

  module _ (server : Server) (now : ℕ) (environment key : String) where
    -- The publish that a decoded request asks for.
    abbrev asked : PublishRequest → Service authority → Result Error Flag × Service authority
    asked request s =
        Service.publish authority now environment (record request.flag { key = key })
          request.expected_revision server.admin_actor s

    abbrev mismatch : PublishRequest → Bool
    mismatch request = not (request.flag.key == "") && not (request.flag.key == key)

    published_failed :
        (r : Result Error Flag × Service authority)
        → (published wire authority r).0.status ≢ 200
        → ((x : Error) × (r.0 ≡ err x)) × ((published wire authority r).1 ≡ r.1)
    unfolding published
    published_failed (ok g, s) h = absurd (h refl)
    published_failed (err x, s) h = ((x, refl), refl)

    published_done :
        (r : Result Error Flag × Service authority)
        → (published wire authority r).0.status ≡ 200
        → (g : Flag) × (r.0 ≡ ok g)
          × (published wire authority r ≡ (write_json 200 (flag_reply g), r.1))
    unfolding published error_status
    published_done (ok g, s) h = (g, refl, refl)
    published_done (err x, s) h = absurd (error_status-≢-200 x h)

    failed :
        (o : Option PublishRequest) (s : Service authority)
        → (publish_decoded wire authority server now environment key o s).0.status ≢ 200
        → Keeps s (publish_decoded wire authority server now environment key o s).1
    unfolding publish_decoded
    failed none s h = Keeps-same s s refl
    failed (some request) s h = elim (Bool-cases (mismatch request)) [
      | inl m ↦ rw m (Keeps-same s s refl)
      | inr m ↦
          let ((x, e), same) = published_failed (asked request s) (rw m at h) in
          let kept =
            publish-eq-err authority now environment (record request.flag { key = key })
              request.expected_revision server.admin_actor s x e in
          rw m (subst (Keeps s) (sym same) kept)
    ]

    done :
        (o : Option PublishRequest) (s : Service authority)
        → (publish_decoded wire authority server now environment key o s).0.status ≡ 200
        → (request : PublishRequest) × (g : Flag) × ((asked request s).0 ≡ ok g)
          × (publish_decoded wire authority server now environment key o s
              ≡ (write_json 200 (flag_reply g), (asked request s).1))
    unfolding publish_decoded
    done none s h = absurd (omega (arith, h))
    done (some request) s h = elim (Bool-cases (mismatch request)) [
      | inl m ↦ let x = rw m at h in absurd (omega (arith, x))
      | inr m ↦
          let (g, e, same) = published_done (asked request s) (rw m at h) in
          (request, g, e, rw m same)
    ]

  module _ (server : Server) (now : ℕ) (request : Request Bytes) (s : Service authority) where
    abbrev handled : Handled wire authority
    handled = handle wire authority server now request s

    serve_publish :
        (environment key : String)
        → authorized server.admin_token request.authorization ≡ true
        → serve wire authority server now request s (publish_flag environment key)
          ≡ publish_decoded wire authority server now environment key
              (only_value wire (decode_publish request.body))
              s
    unfolding serve authorize publish
    serve_publish environment key h = rw h refl

    abbrev Answers : Handled wire authority → Type 0
    Answers r = r.0.status ≢ 200 → Keeps s r.1

    -- What is read leaves the service as it is.
    reads :
        (route : Route)
        → (is_publish route && authorized server.admin_token request.authorization) ≡ false
        → Answers (serve wire authority server now request s route)
    reads route x h = Keeps-same s _ (serve_reads wire authority server now request s route x)

    serve_failed : (route : Route) → Answers (serve wire authority server now request s route)
    serve_failed (publish_flag environment key) =
        elim (Bool-cases (authorized server.admin_token request.authorization)) [
          | inl x ↦
              subst Answers (sym (serve_publish environment key x)) (
                failed server now environment key (only_value wire (decode_publish request.body)) s)
          | inr x ↦ reads (publish_flag environment key) x
        ]
    serve_failed health = reads health refl
    serve_failed list_audit = reads list_audit refl
    serve_failed (list_environment environment) = reads (list_environment environment) refl
    serve_failed (evaluate_flag environment key) = reads (evaluate_flag environment key) refl
    serve_failed (evaluate_environment environment) = reads (evaluate_environment environment) refl

    -- Whatever the request: unless the status is 200, the service shows what it showed before, in its
    -- store, its log and its projection.
    pub failure_changes_nothing : handled.0.status ≢ 200 → Keeps s handled.1
    unfolding handle
    failure_changes_nothing h = serve_failed request.route h

    -- The answer is a definition that is stored, and logged by the server's actor.
    abbrev pub Attributes : String → String → Handled wire authority → Type 0
    Attributes environment key r =
        (g : Flag) × (r.0.reply ≡ flag_reply g)
        × (g.key ≡ key)
        × (stored r.1.store environment key ≡ some g)
        × ((n : ℤ) × (log r.1.store
              ≡ log s.store ++ entry_of n environment g server.admin_actor ∷ []))

    asked-Attributes :
        (environment key : String) (decoded : PublishRequest) (g : Flag)
        → authority.IsValid s.store
        → (asked server now environment key decoded s).0 ≡ ok g
        → Attributes environment key
            (write_json 200 (flag_reply g), (asked server now environment key decoded s).1)
    unfolding copy
    asked-Attributes environment key decoded g valid e =
        let (passed, current, next, kept, logged) =
          publish-eq-ok authority now environment (record decoded.flag { key = key })
            decoded.expected_revision server.admin_actor s g valid e in
        let here : (environment == environment) ≡ true = (eq_iff environment environment).1 refl in
        let there : (key == key) ≡ true = (eq_iff key key).1 refl in
        (g, refl, ap Flag.key next, kept environment key ∙ rw (here, there) refl, logged)

    publish_decoded-Attributes :
        (environment key : String) (o : Option PublishRequest)
        → authority.IsValid s.store
        → (publish_decoded wire authority server now environment key o s).0.status ≡ 200
        → Attributes environment key (publish_decoded wire authority server now environment key o s)
    publish_decoded-Attributes environment key o valid h =
        let (decoded, g, e, same) = done server now environment key o s h in
        subst (Attributes environment key) (sym same)
          (asked-Attributes environment key decoded g valid e)

    abbrev Attributed : String → String → Handled wire authority → Type 0
    Attributed environment key r =
        r.0.status ≡ 200
        → (authorized server.admin_token request.authorization ≡ true)
          × Attributes environment key r

    serve-Attributed :
        (environment key : String)
        → authority.IsValid s.store
        → Attributed environment key
            (serve wire authority server now request s (publish_flag environment key))
    serve-Attributed environment key valid =
        elim (Bool-cases (authorized server.admin_token request.authorization)) [
          | inl x ↦
              subst (Attributed environment key) (sym (serve_publish environment key x))
                (λ h. (x, publish_decoded-Attributes environment key _ valid h))
          | inr x ↦
              subst (Attributed environment key)
                (sym (
                  serve-unauthorized wire authority server now request s
                    (publish_flag environment key) management refl x))
                (λ h. absurd (omega (arith, h)))
        ]

    -- Over a valid store, an answer of status 200 to a publish: the request carried the management
    -- token, and the answer is the definition that is now stored at the environment and the key of
    -- the path. Its key is that of the path; the log has one entry more, for it, by the actor that the
    -- server was made with, whatever the request said.
    pub publish_is_attributed :
        (environment key : String)
        → authority.IsValid s.store
        → request.route ≡ publish_flag environment key
        → handled.0.status ≡ 200
        → (authorized server.admin_token request.authorization ≡ true)
          × Attributes environment key handled
    unfolding handle
    publish_is_attributed environment key valid route h =
        subst (λ r. Attributed environment key (serve wire authority server now request s r))
          (sym route) (serve-Attributed environment key valid) h
