-- ===== src/Auth.antt =====
-- The package auth: the certificates for the connection, from files (auth/auth.go) or from the auth
-- service (auth/auth_service.go).
pub mod Loaded
use salus_telemetry_envoy.Common.{
  ◌==◌, nat_eq, string_eq, String, if◌then◌else◌, Bool, true, false, not, ◌||◌, ℕ, Option, none,
  some,
}
use Prim.Native.String.{◌++◌ as ◌++s◌}
use salus_telemetry_envoy.Common.Result.{Result, ok, err, Error, message, wrap_err, ◌>>=◌, ◌>>◌}

-- Paths of PEM files.
pub record Provided : Type 0 where
  pub cert : String
  pub key : String
  pub ca : String

pub record TlsConfig : Type 0 where
  pub disabled : Bool
  pub provided : Option Provided
  -- the URL of the auth service
  pub auth_service : Option String

pub record AuthServiceResponse : Type 0 where
  pub certificate : String
  pub private_key : String
  pub issuing_ca_certificate : String

pub record HttpResponse : Type 0 where
  pub status_code : ℕ
  pub status : String
  pub body : String

-- What Go's packages crypto/tls, crypto/x509, net/url, net/http, encoding/json and ioutil do.
pub record Platform : Type 1 where
  pub Certificate : Type 0
  pub CertPool : Type 0
  pub Url : Type 0
  pub load_x509_key_pair : String → String → Result Certificate
  pub x509_key_pair : String → String → Result Certificate
  -- a new pool with the certificates of a text, none if it has none
  pub pool_from_pem : String → Option CertPool
  pub read_file : String → Result String
  pub parse_url : String → Result Url
  pub resolve_reference : Url → Url → Url
  pub url_text : Url → String
  pub new_request : String → Result (Unit {0})
  -- a GET of a URL with a bearer token
  pub do_request : String → String → Result HttpResponse
  pub decode : String → Result AuthServiceResponse

module _ (platform : Platform) where
  open platform use {
    Certificate, CertPool, Url, load_x509_key_pair, x509_key_pair, pool_from_pem, read_file,
    parse_url, resolve_reference, url_text, new_request, do_request, decode,
  }

  abbrev pub Loaded : Type 0
  Loaded = Certificate × CertPool

  abbrev pub pool_or_error : Option CertPool → Result CertPool
  pool_or_error none = err (message "failed to process CA cert")
  pool_or_error (some pool) = ok pool

  -- PreallocatedCertProvider
  unfoldable pub provide_preallocated : Provided → Result Loaded
  provide_preallocated p = do
    certificate ← wrap_err "failed to load certificates" (load_x509_key_pair p.cert p.key)
    ca ← wrap_err "failed to read ca cert" (read_file p.ca)
    pool ← pool_or_error (pool_from_pem ca)
    ok (certificate, pool)

  unfoldable pub append_url_path : String → String → Result String
  append_url_path base path = do
    base_url ← wrap_err "failed to parse base URL" (parse_url base)
    rel_url ← wrap_err "failed to parse relative URL" (parse_url path)
    ok (url_text (resolve_reference base_url rel_url))

  unfoldable pub load_from_response : AuthServiceResponse → Result Loaded
  load_from_response r = do
    certificate ← wrap_err "failed to load certificates" (x509_key_pair r.certificate r.private_key)
    pool ← pool_or_error (pool_from_pem r.issuing_ca_certificate)
    ok (certificate, pool)

  abbrev pub flag : Bool → String
  flag true = "true"
  flag false = "false"

  abbrev pub is_missing_field : AuthServiceResponse → Bool
  is_missing_field r = r.certificate == "" || r.private_key == "" || r.issuing_ca_certificate == ""

  abbrev pub missing_field : AuthServiceResponse → Error
  missing_field r = message (
      "auth service response was missing a required field: cert="
      ++s (flag (not (r.certificate == ""))
          ++s (", key="
              ++s (flag (not (r.private_key == ""))
                  ++s (", ca=" ++s flag (not (r.issuing_ca_certificate == "")))))))

  abbrev pub load_checked : AuthServiceResponse → Result Loaded
  load_checked r = if is_missing_field r then err (missing_field r) else load_from_response r

  abbrev pub on_response : HttpResponse → Result Loaded
  on_response h =
      if not (h.status_code == 200)
      then err
          (message ("http request to auth service failed: " ++s (h.status ++s (": " ++s h.body))))
      else wrap_err "failed to decode auth service response" (decode h.body) >>= load_checked

  -- AuthServiceCertProvider, with the token of the configuration
  unfoldable pub provide_from_auth_service : String → String → Result Loaded
  unfolding append_url_path load_from_response
  provide_from_auth_service token url = do
    full_url ← wrap_err "failed to build request url" (append_url_path url "/v1.0/cert")
    wrap_err "failed to prepare auth service request" (new_request full_url)
    response ← wrap_err "failure during auth service request" (do_request full_url token)
    on_response response

  abbrev pub from_service : String → Option String → Result Loaded
  from_service token none = err (message "missing specific tls provider configuration")
  from_service token (some url) = provide_from_auth_service token url

  abbrev pub from_provider : String → Option Provided → Option String → Result Loaded
  from_provider token (some p) service = provide_preallocated p
  from_provider token none service = from_service token service

  -- LoadCertificates, from the key "tls" of the configuration
  unfoldable pub load_certificates : String → Result TlsConfig → Result Loaded
  unfolding provide_preallocated provide_from_auth_service
  load_certificates token config = do
    c ← wrap_err "failed to load tls configuration" config
    from_provider token c.provided c.auth_service
