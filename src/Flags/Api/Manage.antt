-- ===== src/Flags/Api/Manage.antt =====
-- internal/api/manage.go: publishing, listing and reading the audit.
use saas_reaper.Base.{
  ℕ, String, not, ◌&&◌, Option, none, some, List, ◌==◌, if◌then◌else◌, Result, ok, err,
}
use saas_reaper.Base.Int64.{ℤ, pos}
use saas_reaper.Flags.Flag.{Error, conflict, invalid, not_found, other, Flag, AuditEntry}
use saas_reaper.Flags.Authority.{Authority}
use saas_reaper.Flags.Service.{Service}
use saas_reaper.Flags.Service
use saas_reaper.Flags.Api.Routes.{
  PublishRequest, Wire, refused, internal, flag_reply, flags_reply, audit_reply, Response,
  write_json, Server, only_value,
}

unfoldable pub error_status : Error → ℕ
error_status invalid = 400
error_status conflict = 409
error_status not_found = 404
error_status other = 500

abbrev pub write_flag_error : Error → Response
unfolding error_status
write_flag_error e = write_json (error_status e) refused

module _ (wire : Wire) where
  open wire use {Bytes, decode_publish, atoi}

  module _ (authority : Authority) where
    abbrev pub Handled : Type 0
    Handled = Response × Service authority

    unfoldable pub published : Result Error Flag × Service authority → Handled
    published (ok flag, s) = (write_json 200 (flag_reply flag), s)
    published (err e, s) = (write_flag_error e, s)

    unfoldable pub publish_decoded :
        Server → ℕ → String → String → Option PublishRequest → Service authority → Handled
    unfolding published
    publish_decoded server now environment key none s = (write_json 400 refused, s)
    publish_decoded server now environment key (some request) s =
        if not (request.flag.key == "") && not (request.flag.key == key)
        then (write_json 400 refused, s)
        else published (
            Service.publish authority now environment (record request.flag { key = key })
              request.expected_revision server.admin_actor s)

    unfoldable pub publish : Server → ℕ → String → String → Bytes → Service authority → Handled
    unfolding publish_decoded only_value
    publish server now environment key body s =
        publish_decoded server now environment key (only_value wire (decode_publish body)) s

    unfoldable pub listed : Result Error (List Flag) → Response
    listed (ok flags) = write_json 200 (flags_reply flags)
    listed (err e) = write_flag_error e

    unfoldable pub audited : Option (List AuditEntry) → Response
    audited (some entries) = write_json 200 (audit_reply entries)
    audited none = write_json 500 internal

    -- The limit that is asked for: 100 if none is, `none` if it is not an integer.
    unfoldable pub requested_limit : String → Option ℤ
    requested_limit raw = if raw == "" then some (pos 100) else atoi raw

    unfoldable pub audit_limited : Option ℤ → Service authority → Response
    unfolding audited
    audit_limited none s = write_json 400 refused
    audit_limited (some limit) s = audited (Service.audit authority limit s)
