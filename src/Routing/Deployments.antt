-- ===== src/Routing/Deployments.antt =====
-- engine/open_hollywood_engine/models/routing.py: the routes of a frozen campaign.
use open_hollywood.Prelude.{
  ◌≡◌, refl, sym, ◌∙◌, subst, ap, inl, inr, Bool, true, false, not, Option, none, some, List, [],
  ◌∷◌, arith, Result, ok, raise, ◌>>=◌, guard-bind, ◌==◌, string_eq, nat_eq, leb, length, String,
  is_some, all, subset, elem, elem-keys, Dict, Eq, get, keys, is_blank, ok-injective, if-cases,
}
use open_hollywood.Routing.Gateways.{
  campaign_model_gateway, gateway_for, looked_up, values_of_dict, not_frozen, no_route,
  RoutingError, ModelGateway, ModelDeployment, CampaignModelGateway, deployment_eq,
}
use mathlib.Core.Option.{some-injective}

abbrev pub succeeds : {A : Type 0} → Result RoutingError A → Bool
succeeds (ok a) = true
succeeds (raise e) = false

get-subset :
    {V : Type 0} ⦃same : Eq V⦄ (k : String) (v : V) (d : Dict String V) (vs : List V)
    → subset (values_of_dict d) vs ≡ true
    → get k d ≡ some v
    → elem v vs ≡ true
get-subset k v [] vs valid h = cc h
get-subset k v ((j, w) ∷ d) vs valid h = elim (if-cases (j == k) _ _ h) [
  | inl (here, e) ↦ subst (λ x. elem x vs ≡ true) (some-injective _ _ e) (ground (arith, valid))
  | inr (there, e) ↦ get-subset k v d vs (ground (arith, valid)) e
]

looked_up-succeeds :
    {A : Type 0} (e : RoutingError) (o : Option A) → succeeds (looked_up e o) ≡ is_some o
looked_up-succeeds e none = refl
looked_up-succeeds e (some a) = refl

module _ {Response : Type 0} where
  route_of_found :
      (g : CampaignModelGateway Response) (model : String) (found : Option ModelDeployment)
      → get model g.model_deployments ≡ found
      → subset (values_of_dict g.model_deployments) (keys g.deployments) ≡ true
      → succeeds (looked_up not_frozen found >>= (λ d. looked_up no_route (get d g.deployments)))
        ≡ is_some found
  route_of_found g model none at valid = refl
  route_of_found g model (some d) at valid =
      looked_up-succeeds no_route (get d g.deployments)
      ∙ (sym (elem-keys d g.deployments)
          ∙ get-subset model d g.model_deployments (keys g.deployments) valid at)

  -- A campaign gateway that was constructed finds a gateway for exactly the models that were frozen into
  -- it, and for every one of them.
  pub gateway_for-succeeds :
      (provider : String) (deployments : Dict ModelDeployment (ModelGateway Response))
      (models : Dict String ModelDeployment) (g : CampaignModelGateway Response) (model : String)
      → campaign_model_gateway provider deployments models ≡ ok g
      → succeeds (gateway_for g model) ≡ elem model (keys models)
  unfolding campaign_model_gateway gateway_for
  gateway_for-succeeds provider deployments models g model built =
      let (named, b1) = guard-bind (not (is_blank provider)) _ _ built in
      let (routes, b2) = guard-bind (leb 1 (length deployments)) _ _ b1 in
      let (same, b3) =
        guard-bind (all (λ r. r.gateway_provider == provider) (values_of_dict deployments)) _ _
          b2 in
      let (covered, b4) = guard-bind (subset (values_of_dict models) (keys deployments)) _ _ b3 in
      route_of_found g model (get model g.model_deployments) refl (
        subst (λ x. subset (values_of_dict x.model_deployments) (keys x.deployments) ≡ true)
          (ok-injective b4) covered)
      ∙ (ap (λ x. is_some (get model x.model_deployments)) (sym (ok-injective b4))
          ∙ sym (elem-keys model models))
