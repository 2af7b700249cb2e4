-- ===== src/Api/Auth.antt =====
-- resiliencelab/api/auth.py: the identity of a caller. The environment's settings and a request's
-- headers are records; Python's `lower` and `strip`, the text after "bearer " and the digest of a key
-- are parameters, and comparing digests is equality.
use resilience_lab.Common.{
  String, ◌≡◌, refl, sym, ap, subst, Bool, true, false, Option, none, some, List, [], ◌∷◌,
  if◌then◌else◌, arith, inl, inr, Bool-cases,
}
use text.Mathlib.Text.{◌==◌, starts_with}
use text.Mathlib.TextEquality.{eq_iff}

pub record Identity : Type 0 where
  pub user_id : String
  pub auth_method : String

abbrev anonymous : Identity
anonymous = record { user_id = "anonymous"; auth_method = "none" }

abbrev pub is_authenticated : Identity → Bool
is_authenticated i = if i.auth_method == "none" then false else true

-- The resolved settings.
pub record Settings : Type 0 where
  pub auth_mode : String
  pub api_keys : List String

pub data ConfigurationError : Type 0 where
  anonymous_access no_keys : ConfigurationError

-- `none` means that the server may start.
unfoldable pub validate_server_auth_configuration : Settings → Option ConfigurationError
validate_server_auth_configuration c =
    if c.auth_mode == "api_key"
    then elim c.api_keys [ [] ↦ some no_keys | _ ∷ _ ↦ none ]
    else some anonymous_access

pub record Headers : Type 0 where
  pub authorization : Option String
  pub configured_key : Option String

pub data Answer : Type 0 where
  identified : Identity → Answer
  unauthorized no_valid_keys misconfigured : Answer

abbrev is_member : String → List String → Bool
is_member key [] = false
is_member key (k ∷ ks) = if key == k then true else is_member key ks

module _ (lower strip after_bearer digest : String → String) where
  -- A header counts only when it is not empty.
  abbrev bearer_key : Option String → Option String
  bearer_key none = none
  bearer_key (some a) =
      if a == ""
      then none
      else if starts_with (lower a) "bearer "
      then some (strip (after_bearer a))
      else none

  abbrev header_key : Option String → Option String
  header_key none = none
  header_key (some k) = if k == "" then none else some (strip k)

  pub record Presented : Type 0 where
    pub key : Option String
    pub method : String

  abbrev presented : Headers → Presented
  presented h = elim (bearer_key h.authorization) [
    | some k ↦ record { key = some k; method = "bearer" }
    | none ↦ elim (header_key h.configured_key) [
      | some k ↦ record { key = some k; method = "api_key" }
      | none ↦ record { key = none; method = "none" }
    ]
  ]

  abbrev check_key : List String → Presented → Answer
  check_key keys p = elim p.key [
    | none ↦ unauthorized
    | some k ↦
        if is_member k keys
        then identified (record { user_id = digest k; auth_method = p.method })
        else unauthorized
  ]

  unfoldable pub get_identity : Settings → Headers → Answer
  get_identity c h =
      if c.auth_mode == "none"
      then identified anonymous
      else if c.auth_mode == "api_key"
      then elim c.api_keys [ [] ↦ no_valid_keys | k ∷ ks ↦ check_key (k ∷ ks) (presented h) ]
      else misconfigured

  -- A key comes with a method.
  presented_method :
      (h : Headers) (k : String)
      → (presented h).key ≡ some k
      → ((presented h).method == "none") ≡ false
  presented_method h k e = go (bearer_key h.authorization) (header_key h.configured_key) e
    where
      pick : Option String → Option String → Presented
      pick b c = elim b [
        | some x ↦ record { key = some x; method = "bearer" }
        | none ↦ elim c [
          | some x ↦ record { key = some x; method = "api_key" }
          | none ↦ record { key = none; method = "none" }
        ]
      ]

      go : (b c : Option String) → (pick b c).key ≡ some k → ((pick b c).method == "none") ≡ false
      go (some x) c j = refl
      go none (some x) j = refl
      go none none j = cc

  issued : (x y : Identity) → identified x ≡ identified y → x ≡ y
  issued x y e = cc

  -- What an accepted key was.
  accepted :
      (keys : List String) (o : Option String) (method : String) (i : Identity)
      → ((k : String) → o ≡ some k → (method == "none") ≡ false)
      → check_key keys (record { key = o; method = method }) ≡ identified i
      → (is_authenticated i ≡ true)
        × (k : String) × (is_member k keys ≡ true)
        × (i.user_id ≡ digest k)
        × (o ≡ some k)
  accepted keys none method i named e = cc
  accepted keys (some k) method i named e = elim (Bool-cases (is_member k keys)) [
    | inl known ↦
        let same : record { user_id = digest k; auth_method = method } ≡ i =
          issued (record { user_id = digest k; auth_method = method }) i (rw known at e) in
        (rw⁻¹ same (rw (named k refl) refl), k, known, ap (λ x. x.user_id) (sym same), refl)
    | inr unknown ↦ cc (rw unknown at e)
  ]

  abbrev pub Vouched : List String → Headers → Identity → Type 0
  Vouched keys h i =
      (is_authenticated i ≡ true)
      × (k : String) × (is_member k keys ≡ true)
      × (i.user_id ≡ digest k)
      × ((presented h).key ≡ some k)

  in_key_mode :
      (keys : List String) (h : Headers) (i : Identity)
      → get_identity (record { auth_mode = "api_key"; api_keys = keys }) h ≡ identified i
      → Vouched keys h i
  unfolding get_identity
  in_key_mode [] h i e = cc
  in_key_mode (k ∷ ks) h i e =
      accepted (k ∷ ks) (presented h).key (presented h).method i (presented_method h) e

  key_mode : (c : Settings) → validate_server_auth_configuration c ≡ none → c.auth_mode ≡ "api_key"
  unfolding validate_server_auth_configuration
  key_mode c valid = ground (arith, eq_iff c.auth_mode "api_key")

  -- With settings that the server's start accepts, a caller is only ever identified as an
  -- authenticated one, by a key that it presented and that is among the configured ones, and its
  -- user is named by that key's digest.
  pub get_identity_authenticated :
      (c : Settings) (h : Headers) (i : Identity)
      → validate_server_auth_configuration c ≡ none
      → get_identity c h ≡ identified i
      → (is_authenticated i ≡ true)
        × (k : String) × (is_member k c.api_keys ≡ true)
        × (i.user_id ≡ digest k)
        × ((presented h).key ≡ some k)
  get_identity_authenticated c h i valid =
      subst
        (λ m.
          get_identity (record { auth_mode = m; api_keys = c.api_keys }) h ≡ identified i
          → Vouched c.api_keys h i)
        (sym (key_mode c valid)) (in_key_mode c.api_keys h i)
