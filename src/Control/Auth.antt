-- ===== src/Control/Auth.antt =====
-- Who may call: `bearerToken`, `authorizeToken`, `authorizeAgent` of internal/control/server.go.
-- SHA-256 is the library's, and comes in as a function.
use my_safe.Prelude.{
  ◌≡◌, ◌≢◌, inl, inr, Bool, true, false, not, ◌&&◌, ◌||◌, Option, none, some, List, [], ◌∷◌, arith,
  length, ◌==◌, if◌then◌else◌, refl, Option-cases,
}
use my_safe.Prelude.Text.{
  Text, codes, text_eq, text_eq_iff, text_eq_refl, blank, is_empty, contains_any, trim_space,
  to_lower, cut_byte,
}
use my_safe.Domain.{Agent}
use my_safe.Store.Contract.{Stored, ok, err}
use my_safe.Mtls.Identity.{Certificate, matches_agent}
use my_safe.Control.{Config, Request, TlsState}

abbrev white : Text
white = 32 ∷ 9 ∷ 13 ∷ 10 ∷ []

token_of : Option (Text × Text) → Option Text
token_of none = none
token_of (some (scheme, token)) =
    if not (text_eq (to_lower scheme) (codes "bearer"))
      || is_empty token
      || contains_any token white
    then none
    else some token

-- `bearerToken`
unfoldable pub bearer_token : Request → Option Text
unfolding token_of
bearer_token r = token_of (cut_byte 32 (trim_space r.authorization))

-- `request.TLS.PeerCertificates[0]`, where it is there.
abbrev peer_matches : List Certificate → Text → Bool
peer_matches [] agent_id = false
peer_matches (c ∷ _) agent_id = matches_agent c agent_id

-- `agentCertificateMatches`
certificate_matches : Option TlsState → Text → Bool
certificate_matches none agent_id = false
certificate_matches (some t) agent_id =
    if t.verified_chains == 0 then false else peer_matches t.peer_certificates agent_id

-- The verified chain ends in a certificate that was issued to this Agent.
pub record HoldsCertificate (tls : Option TlsState) (agent_id : Text) : Type 0 where
  pub state : TlsState
  pub first : Certificate
  pub rest : List Certificate
  pub present : tls ≡ some state
  pub verified : state.verified_chains ≢ 0
  pub leads : state.peer_certificates ≡ first ∷ rest
  pub matching : matches_agent first agent_id ≡ true

peer_matches-true :
    (cs : List Certificate) (agent_id : Text)
    → peer_matches cs agent_id ≡ true
    → (c : Certificate) × (rest : List Certificate) × (cs ≡ c ∷ rest)
      × (matches_agent c agent_id ≡ true)
peer_matches-true [] agent_id h = absurd (cc h)
peer_matches-true (c ∷ rest) agent_id h = (c, rest, refl, h)

certificate_matches-true :
    (tls : Option TlsState) (agent_id : Text)
    → certificate_matches tls agent_id ≡ true
    → HoldsCertificate tls agent_id
unfolding certificate_matches
certificate_matches-true none agent_id h = absurd (cc h)
certificate_matches-true (some t) agent_id h =
    let (c, rest, leads, matching) =
      peer_matches-true t.peer_certificates agent_id (ground arith) in
    record {
      state = t;
      first = c;
      rest = rest;
      present = refl;
      verified = ground arith;
      leads = leads;
      matching = matching;
    }

module _ (sha256 : Text → Text) where
  same_hash : Option Text → Text → Bool
  same_hash none expected = false
  same_hash (some provided) expected = text_eq (sha256 provided) (sha256 expected)

  -- `authorizeToken`
  unfoldable pub authorize_token : Request → Text → Bool
  unfolding same_hash
  authorize_token r expected = same_hash (bearer_token r) expected

  credential_holds : Stored Agent → Text → Bool
  credential_holds (err _) token = false
  credential_holds (ok a) token =
      length a.credential_hash == 32 && text_eq (sha256 token) a.credential_hash

  -- `authorizeAgent`, over the store's `AgentByID`.
  unfoldable pub authorize_agent : Config → (Text → Stored Agent) → Request → Text → Bool
  unfolding certificate_matches credential_holds
  authorize_agent c agent_by_id r agent_id =
      if blank agent_id then false else elim (bearer_token r) [
        | none ↦ false
        | some token ↦
            if not (credential_holds (agent_by_id agent_id) token)
            then false
            else if c.require_agent_mtls && not (certificate_matches r.tls agent_id)
            then false
            else true
      ]

  -- The token hashes to the credential that is stored for this Agent.
  pub record HoldsCredential (found : Stored Agent) (r : Request) : Type 0 where
    pub token : Text
    pub agent : Agent
    pub borne : bearer_token r ≡ some token
    pub stored : found ≡ ok agent
    pub hashes : agent.credential_hash ≡ sha256 token
    pub whole : length agent.credential_hash ≡ 32

  credential_holds-true :
      (found : Stored Agent) (r : Request) (token : Text)
      → bearer_token r ≡ some token
      → credential_holds found token ≡ true
      → HoldsCredential found r
  unfolding credential_holds
  credential_holds-true (err e) r token borne h = absurd (cc h)
  credential_holds-true (ok a) r token borne h = record {
    token = token;
    agent = a;
    borne = borne;
    stored = refl;
    hashes = ground (arith, text_eq_iff (sha256 token) a.credential_hash);
    whole = ground arith;
  }

  -- An Agent is let in only with a token that hashes to the credential stored for that very Agent,
  -- 32 bytes long, and, where mutual TLS is required, with a verified certificate issued to it.
  pub authorize_agent_sound :
      (c : Config) (agent_by_id : Text → Stored Agent) (r : Request) (agent_id : Text)
      → authorize_agent c agent_by_id r agent_id ≡ true
      → HoldsCredential (agent_by_id agent_id) r
        × (c.require_agent_mtls ≡ true → HoldsCertificate r.tls agent_id)
  unfolding authorize_agent
  authorize_agent_sound c agent_by_id r agent_id h = elim (Option-cases (bearer_token r)) [
    | inl missing ↦ absurd (ground arith)
    | inr (token, borne) ↦ (
      credential_holds-true (agent_by_id agent_id) r token borne (ground arith),
      λ required. certificate_matches-true r.tls agent_id (ground arith),
    )
  ]

  -- The holder of the credential is let in where no certificate is required.
  pub authorize_agent_complete :
      (c : Config) (agent_by_id : Text → Stored Agent) (r : Request) (agent_id token : Text)
      (a : Agent)
      → blank agent_id ≡ false
      → bearer_token r ≡ some token
      → agent_by_id agent_id ≡ ok a
      → a.credential_hash ≡ sha256 token
      → length (sha256 token) ≡ 32
      → c.require_agent_mtls ≡ false
      → authorize_agent c agent_by_id r agent_id ≡ true
  unfolding authorize_agent
  authorize_agent_complete c agent_by_id r agent_id token a named borne found hashes whole plain =
      rw (named, borne, found, plain)
        (ground (arith, text_eq_refl (sha256 token), text_eq_iff (sha256 token) a.credential_hash))
