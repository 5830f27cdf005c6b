-- ===== src/Controller/Deployment/Applied.antt =====
-- internal/controller/arkagent_controller.go: what `reconcileDeployment` leaves.
use arkonis_operator.Prelude.{Option, none, some, ◌≡◌, refl}
use arkonis_operator.Api.Meta.{Message}
use arkonis_operator.Controller.FlowReconcile.{Fetched, found, not_found, unavailable}
use arkonis_operator.Controller.Deployment.{
  Deployment, DeploymentCluster, patched, wrote, on_existing, if_owned, reconcile_deployment,
}

-- The deployment runs what is desired: its replicas, its containers, and the annotations of its pods.
abbrev pub Runs : Deployment → Option Deployment → Type 0
Runs desired none = ⊥
Runs desired (some d) =
    (d.replicas ≡ desired.replicas)
    × (d.containers ≡ desired.containers)
    × (d.annotations ≡ desired.annotations)

module _ (cluster : DeploymentCluster) where
  wrote-Runs :
      (before : Option Deployment) (d desired : Deployment) (e : Option Message)
      → Runs desired (some d)
      → (wrote cluster before d e).error ≡ none
      → Runs desired (wrote cluster before d e).deployment
  wrote-Runs before d desired none runs fine = runs
  wrote-Runs before d desired (some e) runs fine = cc fine

  on_existing-Runs :
      (desired : Deployment) (existing : Fetched Deployment)
      → (on_existing cluster desired existing).error ≡ none
      → Runs desired (on_existing cluster desired existing).deployment
  unfolding patched
  on_existing-Runs desired not_found fine =
      wrote-Runs none desired desired (cluster.create desired) (refl, refl, refl) fine
  on_existing-Runs desired (unavailable e) fine = cc fine
  on_existing-Runs desired (found d) fine =
      wrote-Runs (some d) (patched d desired) desired (cluster.patch (patched d desired))
        (refl, refl, refl) fine

  if_owned-Runs :
      (desired : Deployment) (e : Option Message)
      → (if_owned cluster desired e).error ≡ none
      → Runs desired (if_owned cluster desired e).deployment
  if_owned-Runs desired none fine = on_existing-Runs desired cluster.existing fine
  if_owned-Runs desired (some e) fine = cc fine

  pub reconcile_deployment-Runs :
      (desired : Deployment)
      → (reconcile_deployment cluster desired).error ≡ none
      → Runs desired (reconcile_deployment cluster desired).deployment
  unfolding reconcile_deployment
  reconcile_deployment-Runs desired fine = if_owned-Runs desired (cluster.own desired) fine
