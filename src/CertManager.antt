-- ===== src/CertManager.antt =====
-- k8s/mesh/certmanager/internal: the review of tokens (adapters/kube/tokenreview.go), the signing of
-- certificates (adapters/crypto/signer.go), the service that joins them
-- (app/certmanager/service.go), and its handler (transport/http/handler_sign.go). What the cluster
-- and the cryptographic library answer is a parameter.
pub mod Account
pub mod Issued
use service_mesh.Base.{
  ℕ, ◌+◌, String, Bool, true, false, Option, none, some, List, [], ◌∷◌, ◌⊎◌, inl, inr, ltb, not,
  if◌then◌else◌, str_eq, ◌<>◌, ◌||◌, split_on, has_prefix,
}

pub record Identity : Type 0 where
  pub namespace : String
  pub service_account : String

unfoldable pub identity_text : Identity → String
identity_text i = i.namespace <> "/" <> i.service_account

unfoldable pub dns_name : Identity → String
dns_name i = i.service_account <> "." <> i.namespace <> ".svc.cluster.local"

-- An error, by the sentinel that errors.Is finds in it.
pub data Failure : Type 0 where
  invalid_request unauthorized forbidden other : Failure

-- What the call of the token review gives: one of its errors, or its status.
pub data Review : Type 0 where
  call_forbidden call_unauthorized call_failed : Review
  reviewed : (authenticated : Bool) (reason username : String) → Review

pub record Cluster : Type 0 where
  pub trim_space : String → String
  pub create_review : String → Review

parse_parts : Cluster → List String → Failure ⊎ Identity
parse_parts k (a ∷ b ∷ namespace ∷ account ∷ []) =
    if str_eq (k.trim_space namespace) "" || str_eq (k.trim_space account) ""
    then inl other
    else inr (record { namespace = k.trim_space namespace; service_account = k.trim_space account })
parse_parts k parts = inl other

-- parseServiceAccountUsername.
unfoldable pub parse_username : Cluster → String → Failure ⊎ Identity
unfolding parse_parts
parse_username k username =
    if has_prefix "system:serviceaccount:" (k.trim_space username)
    then parse_parts k (split_on b':' (k.trim_space username))
    else inl other

as_forbidden : Failure ⊎ Identity → Failure ⊎ Identity
as_forbidden (inl failure) = inl forbidden
as_forbidden (inr identity) = inr identity

judge_review : Cluster → Review → Failure ⊎ Identity
unfolding as_forbidden
judge_review k call_forbidden = inl forbidden
judge_review k call_unauthorized = inl unauthorized
judge_review k call_failed = inl other
judge_review k (reviewed false reason username) = inl unauthorized
judge_review k (reviewed true reason username) = as_forbidden (parse_username k username)

-- ValidateToken.
unfoldable pub validate_token : Cluster → String → Failure ⊎ Identity
unfolding judge_review
validate_token k token =
    if str_eq (k.trim_space token) ""
    then inl unauthorized
    else judge_review k (k.create_review (k.trim_space token))

-- What the signer asks the library for; the public key of a request is known by a number.
pub record Template : Type 0 where
  pub serial_number : ℕ
  pub common_name : String
  pub dns : String
  pub not_before : ℕ
  pub not_after : ℕ
  pub public_key : ℕ

-- `parse_csr` is pem.Decode with x509.ParseCertificateRequest, `check_signature` the check of the
-- request by its own key, `random_serial` rand.Int, and `create` x509.CreateCertificate with the
-- encoding of what it gives.
pub record Crypto : Type 0 where
  pub parse_csr : String → Option ℕ
  pub check_signature : String → Bool
  pub random_serial : Option ℕ
  pub create : Template → Option String

pub record Signer : Type 0 where
  pub ca_not_after : ℕ
  pub ca_pem : String
  pub leaf_ttl : ℕ

pub record Signed : Type 0 where
  pub certificate_pem : String
  pub signed_ca_pem : String
  pub expires_at : ℕ

unfoldable pub leaf_expiry : Signer → ℕ → ℕ
leaf_expiry s now =
    if ltb s.ca_not_after (now + s.leaf_ttl) then s.ca_not_after else now + s.leaf_ttl

unfoldable pub leaf_template : Signer → Identity → ℕ → ℕ → ℕ → Template
leaf_template s identity now key serial = record {
  serial_number = serial;
  common_name = identity_text identity;
  dns = dns_name identity;
  not_before = now;
  not_after = leaf_expiry s now;
  public_key = key;
}

create_leaf : Crypto → Signer → Template → Failure ⊎ Signed
create_leaf x s template = elim (x.create template) [
  | none ↦ inl other
  | some pem ↦
      inr (record {
        certificate_pem = pem;
        signed_ca_pem = s.ca_pem;
        expires_at = template.not_after;
      })
]

number_leaf : Crypto → Signer → Identity → ℕ → ℕ → Option ℕ → Failure ⊎ Signed
unfolding create_leaf
number_leaf x s identity now key none = inl other
number_leaf x s identity now key (some serial) =
    create_leaf x s (leaf_template s identity now key serial)

-- SignCSR.
unfoldable pub sign_csr : Crypto → Signer → String → Identity → ℕ → Failure ⊎ Signed
unfolding number_leaf
sign_csr x s csr identity now = elim (x.parse_csr csr) [
  | none ↦ inl invalid_request
  | some key ↦
      if x.check_signature csr
      then number_leaf x s identity now key x.random_serial
      else inl invalid_request
]

-- SignResult.
pub record SignResult : Type 0 where
  pub certificate : Signed
  pub identity : Identity

with_identity : Identity → Failure ⊎ Signed → Failure ⊎ SignResult
with_identity identity (inl failure) = inl failure
with_identity identity (inr signed) = inr (record { certificate = signed; identity = identity })

-- Service.Sign from the answer about the token on.
sign_for : Crypto → Signer → String → ℕ → Failure ⊎ Identity → Failure ⊎ SignResult
unfolding with_identity
sign_for x s csr now (inl failure) = inl failure
sign_for x s csr now (inr identity) = with_identity identity (sign_csr x s csr identity now)

-- Service.Sign.
unfoldable pub sign : Cluster → Crypto → Signer → String → String → ℕ → Failure ⊎ SignResult
unfolding sign_for
sign k x s csr token now = sign_for x s csr now (validate_token k token)

-- What the handler reads: the method, the decoded body with its two fields or none where it is
-- malformed, and whether nothing follows it.
pub record Request : Type 0 where
  pub method : String
  pub body : Option (String × String)
  pub at_end : Bool

-- The status and, with 200, the answer.
pub data Response : Type 0 where
  failed : (status : ℕ) → Response
  issued : SignResult → Response

unfoldable pub map_error_to_status : Failure → ℕ
map_error_to_status invalid_request = 400
map_error_to_status unauthorized = 401
map_error_to_status forbidden = 403
map_error_to_status other = 500

respond : Failure ⊎ SignResult → Response
respond (inl failure) = failed (map_error_to_status failure)
respond (inr result) = issued result

-- The part of ServeHTTP after the method is accepted.
serve_body : Cluster → Crypto → Signer → ℕ → Bool → Option (String × String) → Response
unfolding respond
serve_body k x s now at_end none = failed 400
serve_body k x s now at_end (some (csr, token)) =
    if not at_end
    then failed 400
    else if str_eq (k.trim_space csr) "" || str_eq (k.trim_space token) ""
    then failed 400
    else respond (sign k x s (k.trim_space csr) (k.trim_space token) now)

unfoldable pub serve_http : Cluster → Crypto → Signer → Request → ℕ → Response
unfolding serve_body
serve_http k x s r now =
    if str_eq r.method "POST" then serve_body k x s now r.at_end r.body else failed 405
