-- ===== src/Controller/Objects/Stored.antt =====
-- What internal/controller relies on of the API server, kind by kind.
use smtx_lab.Prelude.{◌≡◌, ◌⊎◌, true, Option, none, some, List, [], ◌∷◌, nat_eq, text_eq, Text}
use smtx_lab.Controller.Client.{Key, key_eq, IsServer}
use smtx_lab.Controller.Objects.{
  ConfigMap, Container, DeploymentSpec, Deployment, ServicePort, ServiceObject, JobObject,
  ApiServer,
}

abbrev pub config_map_key : ConfigMap → Key
config_map_key o = record { namespace = o.namespace; name = o.name }

abbrev pub deployment_key : Deployment → Key
deployment_key o = record { namespace = o.namespace; name = o.name }

abbrev pub service_key : ServiceObject → Key
service_key o = record { namespace = o.namespace; name = o.name }

abbrev pub job_key : JobObject → Key
job_key o = record { namespace = o.namespace; name = o.name }

-- A text that is set is kept; one that is not may be filled in.
abbrev pub IsFilled : Text → Text → Type 0
IsFilled sent kept = (sent ≡ []) ⊎ (kept ≡ sent)

-- A container's pull policy may be filled in, and its quantities may be written otherwise; all else is
-- kept.
pub record KeptContainer (sent kept : Container) : Type 0 where
  pub name : kept.name ≡ sent.name
  pub image : kept.image ≡ sent.image
  pub image_pull_policy : IsFilled sent.image_pull_policy kept.image_pull_policy
  pub command : kept.command ≡ sent.command
  pub args : kept.args ≡ sent.args
  pub env : kept.env ≡ sent.env
  pub ports : kept.ports ≡ sent.ports
  pub volume_mounts : kept.volume_mounts ≡ sent.volume_mounts

-- The port that a service's port is sent to is by default the port itself.
pub record KeptPort (sent kept : ServicePort) : Type 0 where
  pub name : kept.name ≡ sent.name
  pub port : kept.port ≡ sent.port
  pub target_port : IsFilled sent.target_port kept.target_port

-- As many elements, one for one.
abbrev pub Pointwise : {A : Type 0} → (A → A → Type 0) → List A → List A → Type 0
Pointwise P [] [] = Unit
Pointwise P [] (y ∷ ys) = ⊥
Pointwise P (x ∷ xs) [] = ⊥
Pointwise P (x ∷ xs) (y ∷ ys) = P x y × Pointwise P xs ys

-- The defaults of a pod: its restart policy may be filled in.
pub record KeptDeploymentSpec (sent kept : DeploymentSpec) : Type 0 where
  pub replicas : kept.replicas ≡ sent.replicas
  pub selector : kept.selector ≡ sent.selector
  pub pod_labels : kept.template.labels ≡ sent.template.labels
  pub service_account_name :
      IsFilled sent.template.spec.service_account_name kept.template.spec.service_account_name
  pub restart_policy : IsFilled sent.template.spec.restart_policy kept.template.spec.restart_policy
  pub containers :
      Pointwise KeptContainer sent.template.spec.containers kept.template.spec.containers
  pub volumes : kept.template.spec.volumes ≡ sent.template.spec.volumes

-- The server keeps what it is sent, with the defaults of fields that are not set.
pub record KeptDeployment (sent kept : Deployment) : Type 0 where
  pub labels : kept.labels ≡ sent.labels
  pub spec : KeptDeploymentSpec sent.spec kept.spec

-- A service that is sent with an address keeps it; one without is given one.
pub record KeptService (sent kept : ServiceObject) : Type 0 where
  pub labels : kept.labels ≡ sent.labels
  pub selector : kept.spec.selector ≡ sent.spec.selector
  pub ports : Pointwise KeptPort sent.spec.ports kept.spec.ports
  pub cluster_ip : IsFilled sent.spec.cluster_ip kept.spec.cluster_ip

-- A ConfigMap has no finalizer here, so a deletion leaves nothing.
abbrev pub NoConfigMap : Option ConfigMap → Type 0
NoConfigMap after = after ≡ none

-- A job that is deleted may be there still, with a deletion timestamp, until its pods are gone.
abbrev pub JobGone : Option JobObject → Type 0
JobGone after = (after ≡ none) ⊎ ((job : JobObject) × (after ≡ some job) × (job.deleting ≡ true))

-- Nothing is relied on of a deletion.
abbrev pub AnyLeft : {O : Type 0} → Option O → Type 0
AnyLeft after = Unit

pub record IsApiServer (Lab : Type 0) (api : ApiServer Lab) : Type 0 where
  pub config_map_view : api.ConfigMaps → Key → Option ConfigMap
  pub deployment_view : api.Deployments → Key → Option Deployment
  pub service_view : api.Services → Key → Option ServiceObject
  pub job_view : api.Jobs → Key → Option JobObject
  pub config_maps :
      IsServer api.ConfigMaps ConfigMap api.config_map_client config_map_view
        (λ sent kept. kept ≡ sent)
        NoConfigMap
  pub deployments :
      IsServer api.Deployments Deployment api.deployment_client deployment_view
        (λ sent kept. KeptDeployment sent kept)
        AnyLeft
  pub services :
      IsServer api.Services ServiceObject api.service_client service_view
        (λ sent kept. KeptService sent kept)
        AnyLeft
  pub jobs : IsServer api.Jobs JobObject api.job_client job_view (λ sent kept. kept ≡ sent) JobGone
  pub config_map_key_lem : (o : ConfigMap) → api.config_map_client.key o ≡ config_map_key o
  pub deployment_key_lem : (o : Deployment) → api.deployment_client.key o ≡ deployment_key o
  pub service_key_lem : (o : ServiceObject) → api.service_client.key o ≡ service_key o
  pub job_key_lem : (o : JobObject) → api.job_client.key o ≡ job_key o
  pub config_map_labels_lem : (o : ConfigMap) → api.config_map_client.labels o ≡ o.labels
  pub job_labels_lem : (o : JobObject) → api.job_client.labels o ≡ o.labels
