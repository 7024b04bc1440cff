-- ===== src/Clients/Metadata.antt =====
-- What holds of the metadata of a dynamic client once checked.
use mathlib.Core.Path.{subst}
use simple_directory.Clients.{
  ClientMetadata, MetadataError, Strings, Url, Value, allowed_auth_methods, allowed_grant_types,
  allowed_response_types, allowed_strings, application_type_of, check_dynamic_metadata,
  check_redirect_uris, count_uris, dynamic_redirect_uri_allowed, invalid_client_metadata,
  invalid_redirect_uri, is_loopback_redirect_uri, is_private_use, is_web_uri, not_strings,
  other_value, strings, text_value, web_uri_keys,
}
use simple_directory.Exits.{
  >>=-eq-stay, leave_if, leave_if-stay, or_leave, or_leave-stay, stay, stay_inj,
}
use simple_directory.Common.{
  Bool, Bool-cases, List, Option, String, [], all, any, ap, arith, false, filter, get_or,
  if◌then◌else◌, includes, inl, inr, length, length-filter, ltb, map, nat_beq, none, not, not-false,
  refl, some, suc, true, ℕ, ◌&&◌, ◌||◌, ◌∙◌, ◌∷◌, ◌≡◌, ◌≤◌, nat_eq, option_eq, string_eq,
}

ltb-suc : (n : ℕ) → ltb 0 (suc n) ≡ true
ltb-suc n = ground arith

nat_beq-suc : (a b : ℕ) → nat_beq (suc a) (suc b) ≡ nat_beq a b
nat_beq-suc a b = ground arith

nat_beq_of_le : (a b : ℕ) → a ≤ b → nat_beq a (suc b) ≡ false
nat_beq_of_le a b h = ground arith

-- the counts of the code as tests of the list
ltb-count_uris :
    (parse_url : String → Option Url) (p : String → Bool) (l : List String)
    → ltb 0 (count_uris parse_url p l) ≡ any p l
unfolding count_uris
ltb-count_uris parse_url p [] = refl
ltb-count_uris parse_url p (x ∷ l) = elim (Bool-cases (p x)) [
  | inl kept ↦ rw (count_uris, kept) (ltb-suc (length (filter p l)))
  | inr dropped ↦ rw (count_uris, dropped) (ltb-count_uris parse_url p l)
]

nat_beq-count_uris :
    (parse_url : String → Option Url) (p : String → Bool) (l : List String)
    → nat_beq (count_uris parse_url p l) (length l) ≡ all p l
unfolding count_uris
nat_beq-count_uris parse_url p [] = refl
nat_beq-count_uris parse_url p (x ∷ l) = elim (Bool-cases (p x)) [
  | inl kept ↦
      rw (count_uris, kept)
        (nat_beq-suc (length (filter p l)) (length l) ∙ nat_beq-count_uris parse_url p l)
  | inr dropped ↦
      rw (count_uris, dropped) (nat_beq_of_le (length (filter p l)) (length l) (length-filter p l))
]

allowed_strings-stay :
    (allowed : List String) (given : Option Strings) (l : List String)
    → all (includes allowed) allowed ≡ true
    → allowed_strings allowed given ≡ stay l
    → all (includes allowed) l ≡ true
allowed_strings-stay allowed none l h e =
    subst (λ k. all (includes allowed) k ≡ true) (stay_inj e) h
allowed_strings-stay allowed (some not_strings) l h e = cc
allowed_strings-stay allowed (some (strings k)) l h e =
    elim (Bool-cases (all (includes allowed) k)) [
      | inl fine ↦
          subst (λ k. all (includes allowed) k ≡ true) (stay_inj {O = MetadataError} (rw fine at e))
            fine
      | inr wrong ↦ cc (rw wrong at e)
    ]

module _ (parse_url : String → Option Url) where
  check_redirect_uris-stay :
      (given : List Value) (uris : List String)
      → check_redirect_uris parse_url given ≡ stay uris
      → (given ≡ map text_value uris) × (all (dynamic_redirect_uri_allowed parse_url) uris ≡ true)
  unfolding check_redirect_uris
  check_redirect_uris-stay [] uris e =
      subst (λ l. ([] ≡ map text_value l) × (all (dynamic_redirect_uri_allowed parse_url) l ≡ true))
        (stay_inj e) (refl, refl)
  check_redirect_uris-stay (other_value ∷ given) uris e = cc
  check_redirect_uris-stay (text_value uri ∷ given) uris e =
      let (_, passed, e1) =
        >>=-eq-stay
          (leave_if (not (dynamic_redirect_uri_allowed parse_url uri))
            (invalid_redirect_uri "not allowed"))
          _ e in
      let (rest, checked, e2) = >>=-eq-stay (check_redirect_uris parse_url given) _ e1 in
      let (same, fine) = check_redirect_uris-stay given rest checked in
      let now = not-false (dynamic_redirect_uri_allowed parse_url uri) (leave_if-stay _ _ passed) in
      subst
        (λ l.
          ((text_value uri ∷ given) ≡ map text_value l)
          × (all (dynamic_redirect_uri_allowed parse_url) l ≡ true))
        (stay_inj e2) (ap (λ l. text_value uri ∷ l) same, rw (now, fine))

  -- the type of a client from the tests of its uris
  abbrev pub native_or_web : List String → String
  native_or_web uris =
      if all (is_loopback_redirect_uri parse_url) uris || any (is_private_use parse_url) uris
      then "native"
      else "web"

  -- what holds of checked metadata: see check_dynamic_metadata-IsChecked
  pub record IsChecked (m : ClientMetadata) : Type 0 where
    pub method : String
    pub grants : List String
    pub responses : List String
    pub uris : List String
    pub has_method : m.token_endpoint_auth_method ≡ some method
    pub allowed_method : includes allowed_auth_methods method ≡ true
    pub has_grants : m.grant_types ≡ some (strings grants)
    pub allowed_grants : all (includes allowed_grant_types) grants ≡ true
    pub has_responses : m.response_types ≡ some (strings responses)
    pub allowed_responses : all (includes allowed_response_types) responses ≡ true
    pub web_uris : all (λ key. is_web_uri parse_url (m.web_uri key)) (web_uri_keys parse_url) ≡ true
    pub has_uris : m.redirect_uris ≡ some (map text_value uris)
    pub allowed_uris : all (dynamic_redirect_uri_allowed parse_url) uris ≡ true
    pub not_mixed :
        (any (is_loopback_redirect_uri parse_url) uris && any (is_private_use parse_url) uris)
        ≡ false
    pub has_type : m.application_type ≡ some (native_or_web uris)

  application_type_of-native_or_web :
      (uris : List String) → application_type_of parse_url uris ≡ native_or_web uris
  unfolding application_type_of
  application_type_of-native_or_web uris = rw (
    application_type_of,
    nat_beq-count_uris parse_url (is_loopback_redirect_uri parse_url) uris,
    ltb-count_uris parse_url (is_private_use parse_url) uris,
  )

  unmixed_tests :
      (uris : List String)
      → (ltb 0 (count_uris parse_url (is_loopback_redirect_uri parse_url) uris)
          && ltb 0 (count_uris parse_url (is_private_use parse_url) uris))
        ≡ false
      → (any (is_loopback_redirect_uri parse_url) uris && any (is_private_use parse_url) uris)
        ≡ false
  unmixed_tests uris h =
      rw (← (ltb-count_uris parse_url (is_loopback_redirect_uri parse_url) uris))
        (rw (← (ltb-count_uris parse_url (is_private_use parse_url) uris)) h)

  -- Metadata that the check accepts have an allowed authentication method, allowed types of grants
  -- and of responses, https uris for what the consent shows, and redirection uris that are all
  -- allowed, never loopback ones beside private-use ones. The client is native exactly if all of its
  -- uris are loopback ones or one of them is of private use.
  pub check_dynamic_metadata-IsChecked :
      (m m' : ClientMetadata) → check_dynamic_metadata parse_url m ≡ stay m' → IsChecked m'
  unfolding check_dynamic_metadata
  check_dynamic_metadata-IsChecked m m' e =
      let method = get_or m.token_endpoint_auth_method "none" in
      let (_, _, e1) =
        >>=-eq-stay
          (leave_if m.has_sector_identifier (invalid_client_metadata "sector_identifier_uri")) _
          e in
      let (_, right, e2) =
        >>=-eq-stay
          (leave_if (not (includes allowed_auth_methods method))
            (invalid_client_metadata "token_endpoint_auth_method"))
          _ e1 in
      let (grants, g, e3) = >>=-eq-stay (allowed_strings allowed_grant_types m.grant_types) _ e2 in
      let (responses, r, e4) =
        >>=-eq-stay (allowed_strings allowed_response_types m.response_types) _ e3 in
      let (_, web, e5) =
        >>=-eq-stay
          (leave_if
            (not (all (λ key. is_web_uri parse_url (m.web_uri key)) (web_uri_keys parse_url)))
            (invalid_client_metadata "must be an https url"))
          _ e4 in
      let (given, present, e6) =
        >>=-eq-stay (or_leave m.redirect_uris (invalid_redirect_uri "must be a non empty array")) _
          e5 in
      let (_, _, e7) =
        >>=-eq-stay
          (leave_if (nat_beq (length given) 0) (invalid_redirect_uri "must be a non empty array")) _
          e6 in
      let (uris, checked, e8) = >>=-eq-stay (check_redirect_uris parse_url given) _ e7 in
      let (_, unmixed, e9) =
        >>=-eq-stay
          (leave_if
            (ltb 0 (count_uris parse_url (is_loopback_redirect_uri parse_url) uris)
              && ltb 0 (count_uris parse_url (is_private_use parse_url) uris))
            (invalid_redirect_uri "cannot be mixed"))
          _ e8 in
      let (same, fine) = check_redirect_uris-stay given uris checked in
      subst IsChecked (stay_inj e9) (record {
        method = method;
        grants = grants;
        responses = responses;
        uris = uris;
        has_method = refl;
        allowed_method = not-false (includes allowed_auth_methods method) (leave_if-stay _ _ right);
        has_grants = refl;
        allowed_grants = allowed_strings-stay allowed_grant_types m.grant_types grants refl g;
        has_responses = refl;
        allowed_responses =
            allowed_strings-stay allowed_response_types m.response_types responses refl r;
        web_uris = not-false _ (leave_if-stay _ _ web);
        has_uris = or_leave-stay m.redirect_uris _ present ∙ ap some same;
        allowed_uris = fine;
        not_mixed = unmixed_tests uris (leave_if-stay _ _ unmixed);
        has_type = ap some (application_type_of-native_or_web uris);
      })
