-- ===== src/Controller/Objects.antt =====
-- The Kubernetes objects that internal/controller builds, with the fields that it sets or reads, and
-- what the API server stores of each kind.
pub mod Stored
use smtx_lab.Prelude.{◌-◌, ◌/◌, Bool, Option, List, nat_eq, text_eq, all, Text, Dict}
use smtx_lab.Prelude.Int.{ℤ}
use smtx_lab.Controller.Client.{Call, Client}

-- `corev1.ConfigMap`
pub record ConfigMap : Type 0 where
  pub namespace : Text
  pub name : Text
  pub labels : Dict Text Text
  pub annotations : Dict Text Text
  pub data_of : Dict Text Text
  pub binary_data : Dict Text Text

-- `corev1.EnvVar`, `corev1.VolumeMount`
pub record EnvVar : Type 0 where
  pub name : Text
  pub value : Text

pub record VolumeMount : Type 0 where
  pub name : Text
  pub mount_path : Text

pub record ContainerPort : Type 0 where
  pub name : Text
  pub container_port : ℤ

-- The quantities of `corev1.ResourceList` as they are written.
pub record ResourceList : Type 0 where
  pub cpu : Text
  pub memory : Text

pub record ResourceRequirements : Type 0 where
  pub requests : ResourceList
  pub limits : ResourceList

pub record Container : Type 0 where
  pub name : Text
  pub image : Text
  pub image_pull_policy : Text
  pub command : List Text
  pub args : List Text
  pub env : List EnvVar
  pub ports : List ContainerPort
  pub volume_mounts : List VolumeMount
  pub resources : Option ResourceRequirements

-- `corev1.VolumeSource`
pub data VolumeSource : Type 0 where
  config_map_volume : Text → VolumeSource
  empty_dir : VolumeSource

pub record Volume : Type 0 where
  pub name : Text
  pub source : VolumeSource

pub record PodSpec : Type 0 where
  pub service_account_name : Text
  pub node_name : Text
  pub restart_policy : Text
  pub containers : List Container
  pub volumes : List Volume

pub record PodTemplateSpec : Type 0 where
  pub labels : Dict Text Text
  pub spec : PodSpec

pub record DeploymentSpec : Type 0 where
  pub replicas : ℤ
  pub selector : Dict Text Text
  pub template : PodTemplateSpec

pub record DeploymentCondition : Type 0 where
  pub type : Text
  pub status : Text

pub record DeploymentStatus : Type 0 where
  pub available_replicas : ℤ
  pub conditions : List DeploymentCondition

-- `appsv1.Deployment`
pub record Deployment : Type 0 where
  pub namespace : Text
  pub name : Text
  pub labels : Dict Text Text
  pub spec : DeploymentSpec
  pub status : DeploymentStatus

-- `corev1.ServicePort`; the target port is a name.
pub record ServicePort : Type 0 where
  pub name : Text
  pub port : ℤ
  pub target_port : Text

pub record ServiceSpec : Type 0 where
  pub selector : Dict Text Text
  pub ports : List ServicePort
  pub cluster_ip : Text
  pub cluster_ips : List Text

-- `corev1.Service`
pub record ServiceObject : Type 0 where
  pub namespace : Text
  pub name : Text
  pub labels : Dict Text Text
  pub spec : ServiceSpec

pub record JobSpec : Type 0 where
  pub backoff_limit : ℤ
  pub ttl_seconds_after_finished : ℤ
  pub active_deadline_seconds : ℤ
  pub template : PodTemplateSpec

-- `batchv1.Job`; whether it has a deletion timestamp
pub record JobObject : Type 0 where
  pub deleting : Bool
  pub namespace : Text
  pub name : Text
  pub labels : Dict Text Text
  pub annotations : Dict Text Text
  pub spec : JobSpec

-- The API server: what it stores of each kind, and the calls. `Lab` is the kind that is reconciled.
pub record ApiServer (Lab : Type 0) : Type 1 where
  pub ConfigMaps : Type 0
  pub Deployments : Type 0
  pub Services : Type 0
  pub Jobs : Type 0
  pub Labs : Type 0
  pub config_map_client : Client ConfigMaps ConfigMap
  pub deployment_client : Client Deployments Deployment
  pub service_client : Client Services ServiceObject
  pub job_client : Client Jobs JobObject
  pub lab_client : Client Labs Lab
  -- `r.Status().Update`
  pub update_status : Lab → Call Labs (Unit {0})

pub record Stores (Lab : Type 0) (api : ApiServer Lab) : Type 0 where
  pub config_maps : api.ConfigMaps
  pub deployments : api.Deployments
  pub services : api.Services
  pub jobs : api.Jobs
  pub labs : api.Labs

-- A call for objects of one kind, among all that is stored.
module _ {Lab : Type 0} {api : ApiServer Lab} {A : Type 0} where
  abbrev pub on_config_maps : Call api.ConfigMaps A → Call (Stores Lab api) A
  on_config_maps call w =
      let (r, changed) = call w.config_maps in (r, record w { config_maps = changed })

  abbrev pub on_deployments : Call api.Deployments A → Call (Stores Lab api) A
  on_deployments call w =
      let (r, changed) = call w.deployments in (r, record w { deployments = changed })

  abbrev pub on_services : Call api.Services A → Call (Stores Lab api) A
  on_services call w = let (r, changed) = call w.services in (r, record w { services = changed })

  abbrev pub on_jobs : Call api.Jobs A → Call (Stores Lab api) A
  on_jobs call w = let (r, changed) = call w.jobs in (r, record w { jobs = changed })

  abbrev pub on_labs : Call api.Labs A → Call (Stores Lab api) A
  on_labs call w = let (r, changed) = call w.labs in (r, record w { labs = changed })
