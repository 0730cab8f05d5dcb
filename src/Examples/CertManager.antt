-- ===== src/Examples/CertManager.antt =====
-- A request for a certificate that is granted, and one that is not.
use service_mesh.Base.{true, false, some, ◌≡◌, refl, str_eq, if◌then◌else◌, split_on, has_prefix}
use service_mesh.CertManager.{
  Cluster, Crypto, Signer, SignResult, Request, reviewed, issued, serve_http, sign, validate_token,
  parse_username, sign_csr, leaf_template, leaf_expiry, identity_text, dns_name,
}
use service_mesh.CertManager.Issued.{IsJustified, serve_http-IsJustified}

abbrev cluster : Cluster
cluster = record {
  trim_space = λ s. s;
  create_review = λ token.
      if str_eq token "good"
      then reviewed true "" "system:serviceaccount:shop:cart"
      else reviewed false "expired" "";
}

abbrev crypto : Crypto
crypto = record {
  parse_csr = λ csr. some 7;
  check_signature = λ csr. true;
  random_serial = some 99;
  create = λ template. some "certificate";
}

abbrev signer : Signer
signer = record { ca_not_after = 5000; ca_pem = "authority"; leaf_ttl = 3600 }

abbrev request : Request
request = record { method = "POST"; body = some ("csr", "good"); at_end = true }

abbrev result : SignResult
result = record {
  certificate = record {
    certificate_pem = "certificate";
    signed_ca_pem = "authority";
    expires_at = 4600;
  };
  identity = record { namespace = "shop"; service_account = "cart" };
}

test_issued : serve_http cluster crypto signer request 1000 ≡ issued result
unfolding serve_http sign validate_token parse_username sign_csr leaf_template leaf_expiry
    identity_text dns_name split_on has_prefix
test_issued = refl

serve_http-IsJustified_example : IsJustified cluster crypto signer request 1000 result
serve_http-IsJustified_example =
    serve_http-IsJustified cluster crypto signer request 1000 result test_issued
