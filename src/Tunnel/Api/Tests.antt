-- ===== src/Tunnel/Api/Tests.antt =====
-- The theorems of the tunnel's HTTP routes at concrete requests. No body is one JSON value.
use saas_reaper.Base.{String, ◌≡◌, refl, [], true, none, some, List, Result, ok, err}
use saas_reaper.Base.Int64.{ℤ, pos}
use saas_reaper.Tunnel.Lifecycle.{Error, AuditEntry}
use saas_reaper.Tunnel.Database.{Database}
use saas_reaper.Tunnel.Database.Laws.{database}
use saas_reaper.Tunnel.Api.Routes.{Wire, Request, Server, post_claim, write_json, refused, new}
use saas_reaper.Tunnel.Api.{audit_limit, in_limits, handle}
use saas_reaper.Tunnel.Api.Separation.{management, reader_cannot_manage}
use saas_reaper.Tunnel.Tests.{served, encode, hash}

abbrev wire : Wire
wire = record {
  Bytes = String;
  is_json = λ content_type. true;
  decode_claim = λ body. none;
  decode_revoke = λ body. none;
  at_end = λ body. true;
  atoi = λ text. some (pos 1000);
}

abbrev server : Server
server = record { admin_token = "root"; read_token = "eyes" }

server_made : new "root" "eyes" ≡ ok server
unfolding new
server_made = refl

abbrev no_audit : ℤ → Database → Result Error (List AuditEntry)
no_audit limit t = err Error.other

abbrev forbidden : Request String
forbidden = record {
  route = post_claim;
  authorization = "Bearer eyes";
  content_type = "application/json";
  limit = "";
  body = "";
}

reader_cannot_manage_example :
    handle wire database "ann" encode hash no_audit server 9 (ok []) forbidden served
    ≡ (write_json 401 refused, served)
reader_cannot_manage_example =
    reader_cannot_manage wire database "ann" encode hash no_audit server 9 (ok []) forbidden served
      "root" "eyes" management server_made refl refl

limit_read : audit_limit wire database "1000" ≡ ok (pos 1000)
unfolding audit_limit in_limits
limit_read = refl
