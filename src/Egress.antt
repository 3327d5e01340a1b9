-- ===== src/Egress.antt =====
-- operator/internal/controller/egress.go and networkpolicy.go: the egress mode, read from the
-- environment, and the network policy of a task's namespace.
pub mod Port
pub mod Rules
use agentic_dev_pipeline.Prelude.{
  Bool, List, [], false, if◌then◌else◌, int_gt, int_modulus, ltb, true, ℕ, ◌%◌, ◌*◌, ◌+◌, ◌-◌, ◌||◌,
  ◌∷◌,
}
use agentic_dev_pipeline.Text.{Text, codes}
use agentic_dev_pipeline.Kube.{EgressRule, NetworkPolicy, egress_policy, ingress_policy, tcp, udp}

-- A variable's value, or a default where it is the empty text.
abbrev pub or_default : Text → Text → Text
or_default [] d = d
or_default (c ∷ v) d = c ∷ v

-- The loop of `atoiOrZero`, over its variable `n`, a Go `int` that wraps.
pub atoi_from : ℕ → Text → ℕ
atoi_from n [] = n
atoi_from n (r ∷ s) =
    if ltb r b'0' || ltb b'9' r then 0 else atoi_from ((n * 10 + (r - b'0')) % int_modulus) s

pub atoi_or_zero : Text → ℕ
unfolding atoi_from
atoi_or_zero s = atoi_from 0 s

-- The functions of the environment, each over `os.Getenv`.
module _ (getenv : Text → Text) where
  pub egress_proxy_url : Text
  egress_proxy_url = getenv (codes "EGRESS_PROXY_URL")

  unfoldable pub egress_proxy_enabled : Bool
  unfolding egress_proxy_url
  egress_proxy_enabled = elim egress_proxy_url [ [] ↦ false | c ∷ v ↦ true ]

  unfoldable pub egress_proxy_namespace : Text
  egress_proxy_namespace =
      or_default (getenv (codes "EGRESS_PROXY_NAMESPACE")) (codes "egress-proxy")

  -- The test `n > 0` of a wrapped value, as a signed number.
  unfoldable pub egress_proxy_port : ℕ
  unfolding atoi_or_zero
  egress_proxy_port = elim (getenv (codes "EGRESS_PROXY_PORT")) [
    | [] ↦ 3128
    | c ∷ v ↦ let n = atoi_or_zero (c ∷ v) in if int_gt n 0 then n else 3128
  ]

-- The rules, over the environment and the library's `intstr.FromInt`.
module _ (getenv : Text → Text) (from_int : ℕ → ℕ) where
  abbrev pub dns_rule : EgressRule
  dns_rule = record {
    to = [];
    ports =
        record { protocol = udp; port = from_int 53 }
        ∷ record { protocol = tcp; port = from_int 53 }
        ∷ [];
  }

  pub proxy_rule : EgressRule
  proxy_rule = record {
    to =
        record {
          match_labels = (codes "kubernetes.io/metadata.name", egress_proxy_namespace getenv) ∷ [];
        }
        ∷ [];
    ports = record { protocol = tcp; port = from_int (egress_proxy_port getenv) } ∷ [];
  }

  abbrev pub https_rule : EgressRule
  https_rule = record { to = []; ports = record { protocol = tcp; port = from_int 443 } ∷ [] }

  pub egress_rules : List EgressRule
  egress_rules =
      if egress_proxy_enabled getenv then dns_rule ∷ proxy_rule ∷ [] else dns_rule ∷ https_rule ∷ []

  -- The object that `ensureNetworkPolicy` creates in a namespace.
  unfoldable pub sandbox_policy : Text → NetworkPolicy
  sandbox_policy ns = record {
    name = codes "sandbox-egress";
    namespace = ns;
    policy_types = ingress_policy ∷ egress_policy ∷ [];
    ingress_rules = [];
    egress_rules = egress_rules;
  }
