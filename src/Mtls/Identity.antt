-- ===== src/Mtls/Identity.antt =====
-- internal/mtls/mtls.go: issuing an Agent certificate (`Issue`) and matching one (`MatchesAgent`).
-- PEM, X.509 parsing and signing are the library's: they come in as arguments.
use my_safe.Prelude.{
  ℕ, ◌+◌, ◌-◌, ◌*◌, ◌≡◌, ◌==◌, All, refl, ap, Bool, true, false, not, ◌&&◌, ◌||◌, Option, none,
  some, List, [], ◌∷◌, ◌++◌, arith, length, leb, if◌then◌else◌, Option-cases, inl, inr,
}
use my_safe.Prelude.Text.{Text, codes, text_eq, text_eq_iff, text_eq_refl, blank, contains_any}
use my_safe.Domain.{Time}

-- The parts of an X.509 certificate that the code sets or reads.
pub record Certificate : Type 0 where
  pub common_name : Text
  pub client_auth : Bool
  pub uris : List Text
  pub not_before : Time
  pub not_after : Time

-- A certificate request whose signature has been checked.
pub record CertificateRequest : Type 0 where
  pub common_name : Text
  pub is_ed25519 : Bool

pub data IssueError : Type 0 where
  bad_identifiers bad_request wrong_machine wrong_key no_serial unsigned : IssueError

pub data Issued : Type 0 where
  issued : Certificate → Issued
  refused : IssueError → Issued

abbrev identifier_breaks : Text
identifier_breaks = 0 ∷ 13 ∷ 10 ∷ b'/' ∷ 32 ∷ []

-- `validIdentifier`
unfoldable pub valid_identifier : Text → ℕ → Bool
valid_identifier value limit =
    not (blank value) && leb (length value) limit && not (contains_any value identifier_breaks)

abbrev agent_uri : Text → Text
agent_uri agent_id = codes "spiffe://my-safe/agent/" ++ agent_id

abbrev some_uri : Text → List Text → Bool
some_uri want [] = false
some_uri want (uri ∷ uris) = text_eq uri want || some_uri want uris

-- `MatchesAgent`, at a certificate that is there.
unfoldable pub matches_agent : Certificate → Text → Bool
unfolding valid_identifier
matches_agent c agent_id =
    if not (valid_identifier agent_id 128)
      || not (text_eq c.common_name agent_id)
      || not c.client_auth
    then false
    else some_uri (agent_uri agent_id) c.uris

abbrev client_lifetime : ℕ
client_lifetime = 30 * 24 * 60 * 60 * 1000000000

abbrev clock_skew : ℕ
clock_skew = 5 * 60 * 1000000000

-- `parse` is `parseCSR`; `serial` and `signed` say whether the random number and the signature came.
-- `write_path` writes the path of a URL, with escapes, as `URL.String` does: a certificate holds its URIs
-- as they are written.
module _ (write_path : Text → Text) (parse : Text → Option CertificateRequest)
    (serial signed : Bool) where
  -- The template that `Issue` has signed.
  abbrev pub template : Text → Time → Certificate
  template agent_id now = record {
    common_name = agent_id;
    client_auth = true;
    uris = (codes "spiffe://my-safe" ++ write_path (codes "/agent/" ++ agent_id)) ∷ [];
    not_before = now - clock_skew;
    not_after = now + client_lifetime;
  }

  checked_request : Option CertificateRequest → Text → Text → Time → Issued
  checked_request none agent_id machine_id now = refused bad_request
  checked_request (some r) agent_id machine_id now =
      if not (text_eq r.common_name machine_id)
      then refused wrong_machine
      else if not r.is_ed25519
      then refused wrong_key
      else if not serial
      then refused no_serial
      else if not signed
      then refused unsigned
      else issued (template agent_id now)

  unfoldable pub issue : Text → Text → Text → Time → Issued
  unfolding checked_request valid_identifier
  issue csr agent_id machine_id now =
      if not (valid_identifier agent_id 128) || not (valid_identifier machine_id 128)
      then refused bad_identifiers
      else checked_request (parse csr) agent_id machine_id now

-- A certificate passes for one Agent only: the one that its common name tells.
pub matches_agent_unique :
    (c : Certificate) (a b : Text) → matches_agent c a ≡ true → matches_agent c b ≡ true → a ≡ b
unfolding matches_agent
matches_agent_unique c a b ha hb =
    ground (arith, text_eq_iff c.common_name a, text_eq_iff c.common_name b)

-- The letters, the digits, `-`, `.`, `_`, `~` and `/`, which a URL's path is written with as they are.
abbrev pub unreserved : ℕ → Bool
unreserved c =
    (leb b'a' c && leb c b'z')
    || (leb b'A' c && leb c b'Z')
    || (leb b'0' c && leb c b'9')
    || c == b'-'
    || c == b'.'
    || c == b'_'
    || c == b'~'
    || c == b'/'

abbrev pub Plain : Text → Type 0
Plain t = All (λ (c : ℕ). unreserved c ≡ true) t

-- What `Issue` signs for an Agent whose identifier needs no escape in a URL passes for that Agent, is
-- valid for thirty days, and was asked for by a request that names the Agent's machine and holds an
-- Ed25519 key. A path without a character to escape is written as it is.
pub issue-matches_agent :
    (write_path : Text → Text) (parse : Text → Option CertificateRequest) (serial signed : Bool)
    (csr agent_id machine_id : Text) (now : Time) (c : Certificate)
    → ((path : Text) → Plain path → write_path path ≡ path)
    → Plain agent_id
    → issue write_path parse serial signed csr agent_id machine_id now ≡ issued c
    → (matches_agent c agent_id ≡ true)
      × (c.not_after ≡ now + client_lifetime)
      × ((r : CertificateRequest) × (parse csr ≡ some r)
          × (r.common_name ≡ machine_id)
          × (r.is_ed25519 ≡ true))
unfolding issue matches_agent
issue-matches_agent write_path parse serial signed csr agent_id machine_id now c writes plain h =
    let written : write_path (codes "/agent/" ++ agent_id) ≡ codes "/agent/" ++ agent_id =
      writes (codes "/agent/" ++ agent_id)
        (refl, (refl, (refl, (refl, (refl, (refl, (refl, plain))))))) in
    let uri : Text = codes "spiffe://my-safe" ++ write_path (codes "/agent/" ++ agent_id) in
    let found : text_eq uri (agent_uri agent_id) ≡ true =
      (text_eq_iff uri (agent_uri agent_id)).1
        (ap (λ (path : Text). codes "spiffe://my-safe" ++ path) written) in
    elim (Option-cases (parse csr)) [
      | inl none_read ↦ absurd (ground arith)
      | inr (r, parsed) ↦ (
        ground (arith, text_eq_refl agent_id),
        ground arith,
        (r, parsed, ground (arith, text_eq_iff r.common_name machine_id), ground arith),
      )
    ]
