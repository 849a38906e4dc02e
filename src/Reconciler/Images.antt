-- ===== src/Reconciler/Images.antt =====
-- internal/controller/image_extractor.go, and the part of internal/reconciler/reconcile.go that
-- finds the workloads and the images to scan.
use komodor_security_reporte.Prelude.{
  Option, none, some, Bool, true, false, List, [], ◌∷◌, ◌++◌, if◌then◌else◌, not, map, String,
}
use komodor_security_reporte.Prelude.Text.{Text, codes, text_eq, is_empty}
use komodor_security_reporte.Prelude.Sort.{sort_texts}

-- The part of a pod that is read.
pub record Container : Type 0 where
  pub name : Text
  pub image : Text

pub record PodSpec : Type 0 where
  pub containers : List Container
  pub init_containers : List Container
  pub ephemeral_containers : List Container

pub record ExtractedImage : Type 0 where
  pub image : Text
  pub container_name : Text

-- One loop of FromPodSpec; the three have the same body.
unfoldable pub from_containers : List Container → List ExtractedImage
from_containers [] = []
from_containers (c ∷ cs) =
    let rest = from_containers cs in
    if not (is_empty c.image)
    then record { image = c.image; container_name = c.name } ∷ rest
    else rest

unfoldable pub from_pod_spec : PodSpec → List ExtractedImage
unfolding from_containers
from_pod_spec spec =
    from_containers spec.containers
    ++ (from_containers spec.init_containers ++ from_containers spec.ephemeral_containers)

-- A Deployment, StatefulSet or DaemonSet, as far as it is read.
pub record Controller : Type 0 where
  pub name : Text
  pub uid : Text
  pub template : PodSpec

pub record WorkloadInfo : Type 0 where
  pub kind : Text
  pub name : Text
  pub uid : Text
  pub api_version : Text
  pub pod_spec : PodSpec

-- What the Kubernetes API lists, or none if the call fails.
pub record Cluster : Type 0 where
  pub namespaces : Option (List Text)
  pub deployments : Text → Option (List Controller)
  pub statefulsets : Text → Option (List Controller)
  pub daemonsets : Text → Option (List Controller)

abbrev as_workload : String → Controller → WorkloadInfo
as_workload kind c = record {
  kind = codes kind;
  name = c.name;
  uid = c.uid;
  api_version = codes "apps/v1";
  pod_spec = c.template;
}

abbrev as_workloads : String → Option (List Controller) → Option (List WorkloadInfo)
as_workloads kind none = none
as_workloads kind (some cs) = some (map (as_workload kind) cs)

-- A kind that is none of the three has no workloads.
unfoldable pub list_workloads : Cluster → Text → Text → Option (List WorkloadInfo)
list_workloads cluster namespace kind =
    if text_eq kind (codes "Deployment")
    then as_workloads "Deployment" (cluster.deployments namespace)
    else if text_eq kind (codes "StatefulSet")
    then as_workloads "StatefulSet" (cluster.statefulsets namespace)
    else if text_eq kind (codes "DaemonSet")
    then as_workloads "DaemonSet" (cluster.daemonsets namespace)
    else some []

abbrev sorted : Option (List Text) → Option (List Text)
sorted none = none
sorted (some names) = some (sort_texts names)

unfoldable pub resolve_namespaces : Cluster → List Text → Option (List Text)
resolve_namespaces cluster [] = sorted cluster.namespaces
resolve_namespaces cluster (n ∷ ns) = some (sort_texts (n ∷ ns))

unfoldable pub is_excluded : Text → List Text → Bool
is_excluded ns [] = false
is_excluded ns (excl ∷ exclusions) =
    let rest = is_excluded ns exclusions in if text_eq ns excl then true else rest
