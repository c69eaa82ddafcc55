-- ===== src/Routing/Gateways.antt =====
-- engine/open_hollywood_engine/models/routing.py: `ProviderModelGateway` and `CampaignModelGateway`.
use open_hollywood.Prelude.{
  ℕ, ◌≡◌, refl, sym, ap, Bool, true, ◌&&◌, not, Option, none, some, List, [], ◌∷◌, Result, ok,
  raise, ◌>>=◌, ◌>>◌, guard, if◌then◌else◌, ◌==◌, string_eq, nat_eq, leb, nat_beq, length, String,
  is_some, all, any, subset, is_blank, Dict, ◌↔◌, Eq, get, keys,
}

pub data ModelDeployment : Type 0 where
  local cloud : ModelDeployment

abbrev pub deployment_index : ModelDeployment → ℕ
deployment_index local = 0
deployment_index cloud = 1

abbrev pub deployment_is : ModelDeployment → ModelDeployment → Bool
deployment_is a b = nat_beq (deployment_index a) (deployment_index b)

pub deployment_is_iff : (a b : ModelDeployment) → (deployment_is a b ≡ true) ↔ (a ≡ b)
deployment_is_iff local local = (λ h. refl, λ h. refl)
deployment_is_iff local cloud = (λ h. cc h, λ h. ap (λ d. deployment_is local d) (sym h))
deployment_is_iff cloud local = (λ h. cc h, λ h. ap (λ d. deployment_is cloud d) (sym h))
deployment_is_iff cloud cloud = (λ h. refl, λ h. refl)

instance abbrev pub deployment_eq : Eq ModelDeployment
deployment_eq = record { is_same = deployment_is; is_same_iff = deployment_is_iff }

pub record ModelSelection : Type 0 where
  pub provider : String
  pub model_identifier : String
  pub deployment : ModelDeployment

abbrev pub selection_is : ModelSelection → ModelSelection → Bool
selection_is a b =
    a.provider == b.provider
    && a.model_identifier == b.model_identifier
    && deployment_is a.deployment b.deployment

-- `ModelSelection(provider=…, model=…, deployment=…)`
abbrev pub wanted : String → String → ModelDeployment → ModelSelection
wanted p model d = record { provider = p; model_identifier = model; deployment = d }

-- The part of a request that decides its route.
pub record ModelRequest : Type 0 where
  pub request_provider : Option String
  pub request_model : String
  pub request_deployment : Option ModelDeployment

-- A gateway and what it answers: a response, or a failure of its own.
pub record ModelGateway (Response : Type 0) : Type 0 where
  pub gateway_provider : String
  pub generate : ModelRequest → Result ℕ Response

pub data RoutingError : Type 0 where
  no_routes provider_mismatch explicit_required model_not_found empty_provider missing_deployment
        not_frozen no_route invalid_selection :
      RoutingError
  gateway_failed : ℕ → RoutingError

abbrev pub answered : {A : Type 0} → Result ℕ A → Result RoutingError A
answered (ok a) = ok a
answered (raise e) = raise (gateway_failed e)

-- `mapping[key]` of a key that may be missing
abbrev pub looked_up : {A : Type 0} → RoutingError → Option A → Result RoutingError A
looked_up missing none = raise missing
looked_up missing (some a) = ok a

-- A route: its key, and its gateway.
pub record Route (Response : Type 0) : Type 0 where
  pub route_provider : String
  pub route_deployment : ModelDeployment
  pub gateway : ModelGateway Response

pub record ProviderModelGateway (Response : Type 0) : Type 0 where
  pub routes : List (Route Response)
  pub selections : Option (List ModelSelection)

abbrev pub selected_by : Option (List ModelSelection) → ModelSelection → Bool
selected_by none s = true
selected_by (some known) s = any (selection_is s) known

pub record CampaignModelGateway (Response : Type 0) : Type 0 where
  pub campaign_provider : String
  pub deployments : Dict ModelDeployment (ModelGateway Response)
  pub model_deployments : Dict String ModelDeployment

abbrev pub values_of_dict : {K V : Type 0} → Dict K V → List V
values_of_dict [] = []
values_of_dict ((k, v) ∷ d) = v ∷ values_of_dict d

module _ {Response : Type 0} where
  abbrev pub routed :
      String → ModelDeployment → List (Route Response) → Option (ModelGateway Response)
  routed p d [] = none
  routed p d (r ∷ rs) =
      if r.route_provider == p && deployment_is r.route_deployment d
      then some r.gateway
      else routed p d rs

  -- `ProviderModelGateway.__init__`
  unfoldable pub provider_model_gateway :
      List (Route Response)
      → Option (List ModelSelection)
      → Result RoutingError (ProviderModelGateway Response)
  provider_model_gateway routes selections = do
    guard (leb 1 (length routes)) no_routes
    guard (all (λ r. r.route_provider == r.gateway.gateway_provider) routes) provider_mismatch
    ok (record { routes = routes; selections = selections })

  -- `ProviderModelGateway.supports`
  unfoldable pub supports : ProviderModelGateway Response → ModelSelection → Bool
  supports g s = is_some (routed s.provider s.deployment g.routes) && selected_by g.selections s

  -- The rest of `generate`, for a request with a provider and a deployment
  unfoldable pub generate_for :
      ProviderModelGateway Response
      → ModelRequest
      → Option String
      → Option ModelDeployment
      → Result RoutingError Response
  generate_for g request (some p) (some d) = do
    guard (not (is_blank p) && not (is_blank request.request_model)) invalid_selection
    guard (supports g (wanted p request.request_model d)) model_not_found
    gateway ← looked_up no_route (routed p d g.routes)
    answered (gateway.generate request)
  generate_for g request _ _ = raise explicit_required

  -- `ProviderModelGateway.generate`
  abbrev pub generate_routed :
      ProviderModelGateway Response → ModelRequest → Result RoutingError Response
  generate_routed g request =
      generate_for g request request.request_provider request.request_deployment

  -- `CampaignModelGateway.__init__`
  unfoldable pub campaign_model_gateway :
      String
      → Dict ModelDeployment (ModelGateway Response)
      → Dict String ModelDeployment
      → Result RoutingError (CampaignModelGateway Response)
  campaign_model_gateway provider deployments models = do
    guard (not (is_blank provider)) empty_provider
    guard (leb 1 (length deployments)) no_routes
    guard (all (λ g. g.gateway_provider == provider) (values_of_dict deployments)) provider_mismatch
    guard (subset (values_of_dict models) (keys deployments)) missing_deployment
    ok (record {
      campaign_provider = provider;
      deployments = deployments;
      model_deployments = models;
    })

  -- `CampaignModelGateway._gateway_for`
  unfoldable pub gateway_for :
      CampaignModelGateway Response → String → Result RoutingError (ModelGateway Response)
  gateway_for g model = do
    deployment ← looked_up not_frozen (get model g.model_deployments)
    looked_up no_route (get deployment g.deployments)

  -- `CampaignModelGateway.generate`
  unfoldable pub generate_campaign :
      CampaignModelGateway Response → ModelRequest → Result RoutingError Response
  generate_campaign g request = do
    gateway ← gateway_for g request.request_model
    answered (gateway.generate request)
