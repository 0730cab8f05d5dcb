-- ===== src/CertManager/Issued.antt =====
-- What a certificate that is issued stands on.
use service_mesh.Base.{
  ℕ, ◌+◌, ◌≤◌, String, Bool, true, false, some, ◌⊎◌, inl, inr, ◌≡◌, ◌≢◌, refl, sym, ap, ◌∙◌, arith,
  str_eq, Bool-cases, ◌<>◌, Option-cases, eq_iff,
}
use service_mesh.CertManager.{
  Identity, Failure, Review, reviewed, call_forbidden, call_unauthorized, call_failed, Cluster,
  parse_username, identity_text, dns_name, as_forbidden, judge_review, validate_token, Template,
  Crypto, Signer, Signed, leaf_expiry, leaf_template, create_leaf, number_leaf, sign_csr,
  SignResult, with_identity, map_error_to_status, sign_for, sign, Request, issued, failed, respond,
  serve_body, serve_http,
}
use service_mesh.CertManager.Account.{IsAccount, parse_username-IsAccount}

-- The token was authenticated by the cluster as the service account.
pub record IsAuthenticated (k : Cluster) (token : String) (identity : Identity) : Type 0 where
  pub reason : String
  pub username : String
  pub accepted : k.create_review (k.trim_space token) ≡ reviewed true reason username
  pub is_account : IsAccount k username identity

allowed :
    (p : Failure ⊎ Identity) (identity : Identity)
    → as_forbidden p ≡ inr identity
    → p ≡ inr identity
unfolding as_forbidden
allowed (inl failure) identity q = absurd (ground arith)
allowed (inr found) identity q = q

judged :
    (k : Cluster) (token : String) (r : Review) (identity : Identity)
    → k.create_review (k.trim_space token) ≡ r
    → judge_review k r ≡ inr identity
    → IsAuthenticated k token identity
unfolding judge_review
judged k token call_forbidden identity e h = absurd (ground arith)
judged k token call_unauthorized identity e h = absurd (ground arith)
judged k token call_failed identity e h = absurd (ground arith)
judged k token (reviewed false reason username) identity e h = absurd (ground arith)
judged k token (reviewed true reason username) identity e h = record {
  reason = reason;
  username = username;
  accepted = e;
  is_account =
      parse_username-IsAccount k username identity (allowed (parse_username k username) identity h);
}

validate_token-IsAuthenticated :
    (k : Cluster) (token : String) (identity : Identity)
    → validate_token k token ≡ inr identity
    → IsAuthenticated k token identity
unfolding validate_token
validate_token-IsAuthenticated k token identity h =
    judged k token (k.create_review (k.trim_space token)) identity refl (ground arith)

leaf_expiry_bounded :
    (s : Signer) (now : ℕ)
    → (leaf_expiry s now ≤ s.ca_not_after) × (leaf_expiry s now ≤ now + s.leaf_ttl)
unfolding leaf_expiry
leaf_expiry_bounded s now = (ground arith, ground arith)

-- The certificate was made from a request that is signed by its own key, for the identity, and it
-- outlives neither the certificate of the authority nor the time to live.
pub record IsSigned (x : Crypto) (s : Signer) (csr : String) (identity : Identity) (now : ℕ)
    (signed : Signed) : Type 0 where
  pub key : ℕ
  pub serial : ℕ
  pub requested : x.parse_csr csr ≡ some key
  pub proven : x.check_signature csr ≡ true
  pub made :
      x.create (record {
        serial_number = serial;
        common_name = identity.namespace <> "/" <> identity.service_account;
        dns = identity.service_account <> "." <> identity.namespace <> ".svc.cluster.local";
        not_before = now;
        not_after = signed.expires_at;
        public_key = key;
      })
      ≡ some signed.certificate_pem
  pub within_authority : signed.expires_at ≤ s.ca_not_after
  pub within_ttl : signed.expires_at ≤ now + s.leaf_ttl

created :
    (x : Crypto) (s : Signer) (t : Template) (signed : Signed)
    → create_leaf x s t ≡ inr signed
    → (x.create t ≡ some signed.certificate_pem) × (signed.expires_at ≡ t.not_after)
unfolding create_leaf
created x s t signed h = elim (Option-cases (x.create t)) [
  | inl refused ↦ absurd (ground arith)
  | inr (pem, there) ↦
      let same : signed
          ≡ record { certificate_pem = pem; signed_ca_pem = s.ca_pem; expires_at = t.not_after } =
        ground arith in
      rw same (there, refl)
]

sign_csr-IsSigned :
    (x : Crypto) (s : Signer) (csr : String) (identity : Identity) (now : ℕ) (signed : Signed)
    → sign_csr x s csr identity now ≡ inr signed
    → IsSigned x s csr identity now signed
unfolding sign_csr number_leaf leaf_template identity_text dns_name
sign_csr-IsSigned x s csr identity now signed h = elim (Option-cases (x.parse_csr csr)) [
  | inl malformed ↦ absurd (ground arith)
  | inr (k, parsed) ↦ elim (Bool-cases (x.check_signature csr)) [
    | inr forged ↦ absurd (ground arith)
    | inl proven ↦ elim (Option-cases x.random_serial) [
      | inl unlucky ↦ absurd (ground arith)
      | inr (n, drawn) ↦
          let (made, expiry) =
            created x s (leaf_template s identity now k n) signed (ground arith) in
          record {
            key = k;
            serial = n;
            requested = parsed;
            proven = proven;
            made = rw expiry made;
            within_authority = rw expiry (leaf_expiry_bounded s now).0;
            within_ttl = rw expiry (leaf_expiry_bounded s now).1;
          }
    ]
  ]
]

attached :
    (i : Identity) (c : Failure ⊎ Signed) (r : SignResult)
    → with_identity i c ≡ inr r
    → (i ≡ r.identity) × (c ≡ inr r.certificate)
unfolding with_identity
attached i (inl failure) r h = absurd (ground arith)
attached i (inr signed) r h =
    let same : r ≡ record { certificate = signed; identity = i } = ground arith in
    rw same (refl, refl)

joined :
    (x : Crypto) (s : Signer) (csr : String) (now : ℕ) (who : Failure ⊎ Identity)
    (result : SignResult)
    → sign_for x s csr now who ≡ inr result
    → (who ≡ inr result.identity) × (sign_csr x s csr result.identity now ≡ inr result.certificate)
unfolding sign_for
joined x s csr now (inl failure) result h = absurd (ground arith)
joined x s csr now (inr identity) result h =
    let (same, got) = attached identity (sign_csr x s csr identity now) result h in
    (ap inr same, ap (λ i. sign_csr x s csr i now) (sym same) ∙ got)

answered :
    (r : Failure ⊎ SignResult) (result : SignResult) → respond r ≡ issued result → r ≡ inr result
unfolding respond
answered (inl failure) result h = absurd (ground arith)
answered (inr found) result h = ground arith

-- What stands behind an answer with a certificate: the body of the request had a token and a
-- certificate request for which the token is authenticated and the certificate signed.
pub record IsJustified (k : Cluster) (x : Crypto) (s : Signer) (r : Request) (now : ℕ)
    (result : SignResult) : Type 0 where
  pub csr : String
  pub token : String
  pub posted : str_eq r.method "POST" ≡ true
  pub held : r.body ≡ some (csr, token)
  pub authenticated : IsAuthenticated k (k.trim_space token) result.identity
  pub signed : IsSigned x s (k.trim_space csr) result.identity now result.certificate

served :
    (k : Cluster) (x : Crypto) (s : Signer) (now : ℕ) (at_end : Bool) (csr token : String)
    (result : SignResult)
    → serve_body k x s now at_end (some (csr, token)) ≡ issued result
    → sign k x s (k.trim_space csr) (k.trim_space token) now ≡ inr result
unfolding serve_body
served k x s now at_end csr token result h =
    answered (sign k x s (k.trim_space csr) (k.trim_space token) now) result (ground arith)

-- The handler issues a certificate only to a posted request whose token the cluster has
-- authenticated, and whose user's name has the prefix of service accounts and four parts: the
-- certificate's names are written from the namespace and the account among the parts, the request is
-- signed by its own key, and the certificate expires neither after that of the authority nor after
-- the time to live.
pub serve_http-IsJustified :
    (k : Cluster) (x : Crypto) (s : Signer) (r : Request) (now : ℕ) (result : SignResult)
    → serve_http k x s r now ≡ issued result
    → IsJustified k x s r now result
unfolding serve_http sign serve_body
serve_http-IsJustified k x s r now result h = elim (Option-cases r.body) [
  | inl malformed ↦ absurd (ground arith)
  | inr ((csr, token), body) ↦
      let told : sign k x s (k.trim_space csr) (k.trim_space token) now ≡ inr result =
        served k x s now r.at_end csr token result (ground arith) in
      let (who, made) =
        joined x s (k.trim_space csr) now (validate_token k (k.trim_space token)) result told in
      record {
        csr = csr;
        token = token;
        posted = ground arith;
        held = body;
        authenticated = validate_token-IsAuthenticated k (k.trim_space token) result.identity who;
        signed =
            sign_csr-IsSigned x s (k.trim_space csr) result.identity now result.certificate made;
      }
]

-- A posted, complete request whose token the cluster does not authenticate is answered 401, whatever
-- the certificate request is.
unauthenticated_refused :
    (k : Cluster) (x : Crypto) (s : Signer) (now : ℕ) (csr token reason username : String)
    → k.trim_space csr ≢ ""
    → k.trim_space token ≢ ""
    → k.create_review (k.trim_space (k.trim_space token)) ≡ reviewed false reason username
    → serve_http k x s (record { method = "POST"; body = some (csr, token); at_end = true }) now
      ≡ failed 401
unfolding serve_http serve_body sign sign_for validate_token judge_review respond
    map_error_to_status
unauthenticated_refused k x s now csr token reason username filled set refused =
    ground (arith, eq_iff (k.trim_space csr) "", eq_iff (k.trim_space token) "")
