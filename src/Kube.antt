-- ===== src/Kube.antt =====
-- The Kubernetes objects that the operator creates and reads, with the fields that it sets, and the
-- GitHub objects that it reads. Maps are association lists; Go's nil pointers are `none`.
use agentic_dev_pipeline.Prelude.{ℕ, Bool, List}
use agentic_dev_pipeline.Text.{Text}

abbrev pub StringMap : Type 0
StringMap = List (Text × Text)

pub record Namespace : Type 0 where
  pub name : Text
  pub labels : StringMap

pub data Protocol : Type 0 where
  tcp udp : Protocol

pub record PolicyPort : Type 0 where
  pub protocol : Protocol
  pub port : ℕ

-- A peer is a selector of namespaces by their labels.
pub record PolicyPeer : Type 0 where
  pub match_labels : StringMap

pub record EgressRule : Type 0 where
  pub to : List PolicyPeer
  pub ports : List PolicyPort

pub data PolicyType : Type 0 where
  ingress_policy egress_policy : PolicyType

-- The pod selector is empty in every policy of the operator, and so are the ingress rules.
pub record NetworkPolicy : Type 0 where
  pub name : Text
  pub namespace : Text
  pub policy_types : List PolicyType
  pub ingress_rules : List EgressRule
  pub egress_rules : List EgressRule

pub record Secret : Type 0 where
  pub name : Text
  pub namespace : Text
  pub values : StringMap

pub data EnvValue : Type 0 where
  literal : Text → EnvValue
  secret_key : Text → Text → EnvValue

pub record EnvVar : Type 0 where
  pub name : Text
  pub value : EnvValue

pub record ContainerSecurity : Type 0 where
  pub allow_privilege_escalation : Bool
  pub read_only_root_filesystem : Bool
  pub drop_capabilities : List Text

pub record Resources : Type 0 where
  pub request_cpu : Text
  pub request_memory : Text
  pub limit_cpu : Text
  pub limit_memory : Text

pub record Container : Type 0 where
  pub name : Text
  pub image : Text
  pub command : List Text
  pub env : List EnvVar
  pub security : ContainerSecurity
  pub resources : Resources
  pub volume_mounts : StringMap

pub record PodSecurity : Type 0 where
  pub run_as_user : ℕ
  pub run_as_group : ℕ
  pub fs_group : ℕ
  pub run_as_non_root : Bool
  pub seccomp_profile : Text

-- Every volume of the operator's pods is an empty directory.
pub record Pod : Type 0 where
  pub name : Text
  pub namespace : Text
  pub labels : StringMap
  pub restart_policy : Text
  pub active_deadline_seconds : ℕ
  pub automount_service_account_token : Bool
  pub security : PodSecurity
  pub init_containers : List Container
  pub containers : List Container
  pub volumes : List Text

-- The phase of a pod that was read.
pub data PodPhase : Type 0 where
  pod_pending pod_running pod_succeeded pod_failed pod_unknown : PodPhase

pub record Issue : Type 0 where
  pub number : ℕ
  pub is_pull_request : Bool
  pub body : Text

pub record PullRequest : Type 0 where
  pub number : ℕ
  pub head_ref : Text
  pub merged : Bool
  pub state : Text
  pub html_url : Text
  pub labels : List Text

pub record Comment : Type 0 where
  pub body : Text
  pub user_type : Text
  pub user_login : Text
  pub author_association : Text
