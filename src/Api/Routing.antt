-- ===== src/Api/Routing.antt =====
-- Which requests reach the handlers of a single resource.
use hackaway_repo.Base.{
  String, true, false, ◌≡◌, ◌≢◌, refl, sym, ap, ◌∙◌, none, some, append, ◌==◌, eq_iff, arith,
}
use hackaway_repo.Client.{Kind, agent, Client}
use hackaway_repo.Api.Http.{Request, Writer}
use hackaway_repo.Api.Paths.{
  is_segment, strip_prefix, split_slash, trim_slash, trim_slash-segment, split_slash-segment,
  strip_prefix-append,
}
use hackaway_repo.Api.Routes.{
  Environment, handle_single, handle_below, handle_resources, handle_request,
}

differ : (x y : String) → x ≢ y → (x == y) ≡ false
differ x y other = ground (arith, eq_iff x y)

-- A path that a prefix does not begin is no path below it.
no_value {ℓ} : {A : Type ℓ} (a : A) → some a ≢ none
no_value a e = cc

-- A path below a prefix is not one that the prefix does not begin.
not_below :
    (prefix name path x : String)
    → path ≡ append prefix name
    → strip_prefix prefix x ≡ none
    → (path == x) ≡ false
not_below prefix name path x below outside = differ path x λ same. no_value name (
    sym (strip_prefix-append prefix name) ∙ (ap (strip_prefix prefix) (sym below ∙ same) ∙ outside))

module _ (c : Client) (env : Environment) (namespace : String) where
  handle_below-segment :
      (path : String) (k : Kind) (r : Request) (name : String) (w : Writer)
      → is_segment name ≡ true
      → name ≢ ""
      → handle_below c env namespace path k r name w ≡ handle_single c env namespace k r name w
  unfolding handle_below
  handle_below-segment path k r name w segment given = rw (trim_slash-segment name segment) (
      rw (differ name "" given) (
        rw (split_slash-segment name segment)
          (ap (λ n. handle_single c env namespace k r n w) alone)))
    where
      alone : (split_slash (trim_slash name)).0 ≡ name
      alone =
          ap (λ t. (split_slash t).0) (trim_slash-segment name segment)
          ∙ ap (λ p. p.0) (split_slash-segment name segment)

  -- A request for the path of the agents with a name below it, without a further slash, is handled
  -- by its method, as one for the agent of that name.
  pub handle_request-single :
      (r : Request) (name : String) (w : Writer)
      → r.path ≡ append "/api/agents/" name
      → is_segment name ≡ true
      → name ≢ ""
      → handle_request c env namespace r w ≡ handle_single c env namespace agent r name w
  unfolding handle_request handle_resources strip_prefix
  handle_request-single r name w path segment given = rw (outside "/api/summary" refl) (
      rw (outside "/api/activity" refl) (
        rw (outside "/api/health" refl) (
          rw (outside "/api/agents" refl) (
            rw (ap (strip_prefix "/api/agents/") path ∙ strip_prefix-append "/api/agents/" name)
              (handle_below-segment "/api/agents" agent r name w segment given)))))
    where
      outside : (x : String) → strip_prefix "/api/agents/" x ≡ none → (r.path == x) ≡ false
      outside x none_left = not_below "/api/agents/" name r.path x path none_left
