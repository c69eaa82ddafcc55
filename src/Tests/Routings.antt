-- ===== src/Tests/Routings.antt =====
-- A gateway of one local route, and a request for it.
use open_hollywood.Prelude.{
  ℕ, ◌≡◌, refl, true, none, some, List, [], ◌∷◌, ok, string_eq, nat_eq, String, Dict, is_blank,
}
use open_hollywood.Routing.Routes.{generate_routed-AnsweredBy, AnsweredBy}
use open_hollywood.Routing.Deployments.{gateway_for-succeeds, succeeds}
use open_hollywood.Routing.{
  CampaignModelGateway, gateway_for, campaign_model_gateway, ModelDeployment, deployment_eq, local,
  ModelGateway, ModelRequest, ProviderModelGateway, Route, provider_model_gateway, generate_for,
  supports,
}

abbrev local_gateway : ModelGateway ℕ
local_gateway = record { gateway_provider = "ollama"; generate = λ request. ok 7 }

abbrev local_routes : List (Route ℕ)
local_routes =
    record { route_provider = "ollama"; route_deployment = local; gateway = local_gateway } ∷ []

abbrev local_provider : ProviderModelGateway ℕ
local_provider = record { routes = local_routes; selections = none }

abbrev local_request : ModelRequest
local_request = record {
  request_provider = some "ollama";
  request_model = "gemma";
  request_deployment = some local;
}

generate_routed-AnsweredBy_example :
    AnsweredBy {Response = ℕ} local_routes none local_request "ollama" local 7
unfolding provider_model_gateway generate_for supports is_blank
generate_routed-AnsweredBy_example =
    generate_routed-AnsweredBy local_routes none local_provider local_request "ollama" local 7 refl
      refl refl refl

abbrev campaign_routes : Dict ModelDeployment (ModelGateway ℕ)
campaign_routes = (local, local_gateway) ∷ []

abbrev campaign_models : Dict String ModelDeployment
campaign_models = ("gemma", local) ∷ ("qwen", local) ∷ []

abbrev local_campaign : CampaignModelGateway ℕ
local_campaign = record {
  campaign_provider = "ollama";
  deployments = campaign_routes;
  model_deployments = campaign_models;
}

gateway_for-succeeds_example : succeeds (gateway_for local_campaign "qwen") ≡ true
unfolding campaign_model_gateway is_blank
gateway_for-succeeds_example =
    gateway_for-succeeds "ollama" campaign_routes campaign_models local_campaign "qwen" refl
