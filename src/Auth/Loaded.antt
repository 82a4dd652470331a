-- ===== src/Auth/Loaded.antt =====
-- What certificates that were loaded rest on.
use salus_telemetry_envoy.Common.{
  ◌==◌, nat_eq, string_eq, texts_eq, String, true, false, ◌≡◌, none, some,
}
use salus_telemetry_envoy.Common.Result.{Result, ok}
use salus_telemetry_envoy.Auth.{
  Provided, TlsConfig, AuthServiceResponse, HttpResponse, Platform, Loaded, is_missing_field,
}

module _ (platform : Platform) where
  open platform use {
    Certificate, CertPool, Url, load_x509_key_pair, x509_key_pair, pool_from_pem, read_file,
    parse_url, resolve_reference, url_text, new_request, do_request, decode,
  }

  -- The files that were named hold them.
  pub record IsFromFiles (p : Provided) (l : Loaded platform) : Type 0 where
    pub pair : load_x509_key_pair p.cert p.key ≡ ok (l.0)
    pub ca : String
    pub ca_read : read_file p.ca ≡ ok ca
    pub pool : pool_from_pem ca ≡ some (l.1)

  -- The URL of the certificates at the auth service: "/v1.0/cert", resolved from its own.
  pub record IsServiceUrl (service url : String) : Type 0 where
    pub base : Url
    pub path : Url
    pub base_parsed : parse_url service ≡ ok base
    pub path_parsed : parse_url "/v1.0/cert" ≡ ok path
    pub resolved : url ≡ url_text (resolve_reference base path)

  -- A response of status 200 with all three fields holds them, to a GET at that URL.
  pub record IsFromService (service token : String) (l : Loaded platform) : Type 0 where
    pub url : String
    pub url_resolved : IsServiceUrl service url
    pub http : HttpResponse
    pub response : AuthServiceResponse
    pub answered : do_request url token ≡ ok http
    pub succeeded : (http.status_code == 200) ≡ true
    pub decoded : decode http.body ≡ ok response
    pub complete : is_missing_field platform response ≡ false
    pub pair : x509_key_pair response.certificate response.private_key ≡ ok (l.0)
    pub pool : pool_from_pem response.issuing_ca_certificate ≡ some (l.1)

  -- Where the certificates come from: the files of the configuration if it names any, else the
  -- auth service if it names that.
  pub data IsLoaded (token : String) (c : TlsConfig) (l : Loaded platform) : Type 0 where
    files : (p : Provided) → c.provided ≡ some p → IsFromFiles p l → IsLoaded token c l
    service :
        (url : String)
        → c.provided ≡ none
        → c.auth_service ≡ some url
        → IsFromService url token l
        → IsLoaded token c l
