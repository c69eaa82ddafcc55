-- ===== src/Routing/Routes.antt =====
-- engine/open_hollywood_engine/models/routing.py: where requests go.
use open_hollywood.Prelude.{
  ℕ, ◌≡◌, sym, ◌∙◌, subst, ap, inl, inr, true, ◌&&◌, not, Option, none, some, List, [], ◌∷◌, arith,
  Result, ok, raise, >>=-eq-ok, guard-bind, ◌==◌, string_eq, nat_eq, leb, length, String, all,
  is_blank, if-cases, ok-injective, Bool, is_some, ◌++◌,
}
use mathlib.Core.Option.{some-injective}
use mathlib.Core.Path.{refl}
use open_hollywood.Routing.Gateways.{
  supports, selected_by, wanted, deployment_is_iff, generate_routed, deployment_is,
  ProviderModelGateway, ModelSelection, routed, generate_for, looked_up, ModelGateway, Route,
  provider_model_gateway, RoutingError, answered, ModelRequest, ModelDeployment, no_route,
}

&&-right : (a b : Bool) → a && b ≡ true → b ≡ true
&&-right a b h = ground (arith, h)

looked_up-ok :
    {A : Type 0} (e : RoutingError) (o : Option A) (a : A) → looked_up e o ≡ ok a → o ≡ some a
looked_up-ok e none a h = cc h
looked_up-ok e (some b) a h = ap some (ok-injective h)

module _ {Response : Type 0} where
  -- The gateway of a route among those given, whose key is the provider and the deployment.
  pub record RouteOf (p : String) (d : ModelDeployment) (routes : List (Route Response))
      (gateway : ModelGateway Response) : Type 0 where
    pub route : Route Response
    pub before : List (Route Response)
    pub after : List (Route Response)
    pub is_configured : routes ≡ before ++ route ∷ after
    pub keyed : (route.route_provider ≡ p) × (route.route_deployment ≡ d)
    pub its_gateway : route.gateway ≡ gateway
    pub same_provider : gateway.gateway_provider ≡ p

  RouteOf-later :
      (p : String) (d : ModelDeployment) (r : Route Response) (routes : List (Route Response))
      (gateway : ModelGateway Response)
      → RouteOf p d routes gateway
      → RouteOf p d (r ∷ routes) gateway
  RouteOf-later p d r routes gateway is = record {
    route = is.route;
    before = r ∷ is.before;
    after = is.after;
    is_configured = ap (λ rs. r ∷ rs) is.is_configured;
    keyed = is.keyed;
    its_gateway = is.its_gateway;
    same_provider = is.same_provider;
  }

  routed-RouteOf :
      (p : String) (d : ModelDeployment) (routes : List (Route Response))
      (gateway : ModelGateway Response)
      → all (λ r. r.route_provider == r.gateway.gateway_provider) routes ≡ true
      → routed p d routes ≡ some gateway
      → RouteOf p d routes gateway
  routed-RouteOf p d [] gateway valid h = cc h
  routed-RouteOf p d (r ∷ rs) gateway valid h =
      elim (if-cases (r.route_provider == p && deployment_is r.route_deployment d) _ _ h) [
        | inl (here, e) ↦
            let at_p = (string_eq.is_same_iff r.route_provider p).0 (ground (arith, here)) in
            let its =
              (string_eq.is_same_iff r.route_provider r.gateway.gateway_provider).0
                (ground (arith, valid)) in
            subst (RouteOf p d (r ∷ rs)) (some-injective _ _ e) (record {
              route = r;
              before = [];
              after = rs;
              is_configured = refl;
              keyed = (at_p, (deployment_is_iff r.route_deployment d).0 (ground (arith, here)));
              its_gateway = refl;
              same_provider = sym its ∙ at_p;
            })
        | inr (there, e) ↦
            RouteOf-later p d r rs gateway (routed-RouteOf p d rs gateway (ground (arith, valid)) e)
      ]

  -- A request is answered by the gateway of one of the routes, that of the provider and the deployment
  -- that it names, and the selection is one of those allowed.
  pub record AnsweredBy (routes : List (Route Response)) (selections : Option (List ModelSelection))
      (request : ModelRequest) (p : String) (d : ModelDeployment) (response : Response)
      : Type 0 where
    pub gateway : ModelGateway Response
    pub its_route : RouteOf p d routes gateway
    pub is_allowed : selected_by selections (wanted p request.request_model d) ≡ true
    pub its_answer : gateway.generate request ≡ ok response

  answered-ok : (r : Result ℕ Response) (x : Response) → answered r ≡ ok x → r ≡ ok x
  answered-ok (ok y) x h = ap ok (ok-injective h)
  answered-ok (raise e) x h = cc h

  -- A multi-provider gateway that was constructed answers a request only by the gateway of one of its
  -- routes, whose key is the provider and the deployment that the request names and whose own provider
  -- is that provider; and the selection is one of those that it was given, if it was given any.
  pub generate_routed-AnsweredBy :
      (routes : List (Route Response)) (selections : Option (List ModelSelection))
      (g : ProviderModelGateway Response) (request : ModelRequest) (p : String)
      (d : ModelDeployment) (response : Response)
      → provider_model_gateway routes selections ≡ ok g
      → request.request_provider ≡ some p
      → request.request_deployment ≡ some d
      → generate_routed g request ≡ ok response
      → AnsweredBy routes selections request p d response
  unfolding provider_model_gateway generate_for supports
  generate_routed-AnsweredBy routes selections g request p d response built names at h =
      let (some_routes, b1) = guard-bind (leb 1 (length routes)) _ _ built in
      let (valid, b2) =
        guard-bind (all (λ r. r.route_provider == r.gateway.gateway_provider) routes) _ _ b1 in
      let same : record { routes = routes; selections = selections } ≡ g = ok-injective b2 in
      let h0 : generate_for g request (some p) (some d) ≡ ok response =
        subst (λ o. generate_for g request (some p) o ≡ ok response) at
          (subst (λ o. generate_for g request o request.request_deployment ≡ ok response) names
            h) in
      let (texts, h1) =
        guard-bind (not (is_blank p) && not (is_blank request.request_model)) _ _ h0 in
      let (known, h2) = guard-bind (supports g (wanted p request.request_model d)) _ _ h1 in
      let (gateway, found, h3) = >>=-eq-ok (looked_up no_route (routed p d g.routes)) _ h2 in
      record {
        gateway = gateway;
        its_route = routed-RouteOf p d routes gateway valid (
            subst (λ x. routed p d x.routes ≡ some gateway) (sym same)
              (looked_up-ok no_route (routed p d g.routes) gateway found));
        is_allowed =
            subst (λ x. selected_by x.selections (wanted p request.request_model d) ≡ true)
              (sym same) (&&-right (is_some (routed p d g.routes)) _ known);
        its_answer = answered-ok (gateway.generate request) response h3;
      }
