-- ===== src/Egress/Rules.antt =====
-- What the network policy of networkpolicy.go lets out of a task's namespace.
use agentic_dev_pipeline.Prelude.{
  Bool, List, Option, [], false, if◌then◌else◌, inl, inr, none, refl, some, subst, sym, true, ℕ,
  ◌%◌, ◌^◌, ◌↔◌, ◌∙◌, ◌∷◌, ◌≡◌, ◌⊎◌,
}
use agentic_dev_pipeline.Text.{Text, codes}
use agentic_dev_pipeline.Kube.{
  EgressRule, NetworkPolicy, PolicyPeer, PolicyPort, Protocol, StringMap, egress_policy,
  ingress_policy, tcp, udp,
}
use agentic_dev_pipeline.Egress.{
  dns_rule, egress_proxy_enabled, egress_proxy_namespace, egress_proxy_port, egress_rules,
  https_rule, proxy_rule, sandbox_policy,
}

-- Where a connection goes: the labels of the namespace that it reaches, none outside the cluster; its
-- protocol and port.
pub record Destination : Type 0 where
  pub labels : Option (Text → Option Text)
  pub protocol : Protocol
  pub port : ℕ

-- A peer admits the namespaces that carry its labels.
abbrev pub Carries : StringMap → (Text → Option Text) → Type 0
Carries [] labels = Unit
Carries ((key, v) ∷ m) labels = (labels key ≡ some v) × Carries m labels

abbrev pub PeerAdmits : Destination → PolicyPeer → Type 0
PeerAdmits d peer = elim d.labels [ none ↦ ⊥ | some labels ↦ Carries peer.match_labels labels ]

abbrev pub OneOf {ℓ} : {A : Type ℓ} → (A → Type 0) → List A → Type 0
OneOf P [] = ⊥
OneOf P (x ∷ xs) = P x ⊎ OneOf P xs

-- A rule without peers admits every peer.
abbrev pub PeersAdmit : Destination → List PolicyPeer → Type 0
PeersAdmit d [] = Unit
PeersAdmit d (p ∷ ps) = OneOf (PeerAdmits d) (p ∷ ps)

abbrev pub PortAdmits : Destination → PolicyPort → Type 0
PortAdmits d p = (d.protocol ≡ p.protocol) × (d.port ≡ p.port)

abbrev pub RuleAdmits : Destination → EgressRule → Type 0
RuleAdmits d rule = PeersAdmit d rule.to × OneOf (PortAdmits d) rule.ports

-- Some rule of the policy admits the destination.
abbrev pub PolicyAdmits : NetworkPolicy → Destination → Type 0
PolicyAdmits policy d = OneOf (RuleAdmits d) policy.egress_rules

-- Port 53 of every host, inside the cluster and outside.
abbrev pub IsPort53 : Destination → Type 0
IsPort53 d = ((d.protocol ≡ udp) ⊎ (d.protocol ≡ tcp)) × (d.port ≡ 53)

-- Port 443 of every host.
abbrev pub IsHttps : Destination → Type 0
IsHttps d = (d.protocol ≡ tcp) × (d.port ≡ 443)

-- The proxy: its namespace, and its port, of which the object holds the low 32 bits.
abbrev pub IsProxy : (Text → Text) → Destination → Type 0
IsProxy getenv d =
    ((labels : Text → Option Text) × (d.labels ≡ some labels)
      × (labels (codes "kubernetes.io/metadata.name") ≡ some (egress_proxy_namespace getenv)))
    × (d.protocol ≡ tcp)
    × (d.port ≡ egress_proxy_port getenv % 2 ^ 32)

-- What may be reached in the two modes.
abbrev pub Reaches : (Text → Text) → Bool → Destination → Type 0
Reaches getenv true d = IsPort53 d ⊎ IsProxy getenv d
Reaches getenv false d = IsPort53 d ⊎ IsHttps d

labels_iff :
    (m : StringMap) (o : Option (Text → Option Text))
    → (elim o [ none ↦ ⊥ | some labels ↦ Carries m labels ])
      ↔ ((labels : Text → Option Text) × (o ≡ some labels) × Carries m labels)
labels_iff m none = (λ h. absurd h, λ (labels, e, h). cc)
labels_iff m (some labels) =
    (λ h. (labels, refl, h), λ (others, e, h). subst (Carries m) (some_fun e) h)
  where
    some_fun : {f g : Text → Option Text} → some f ≡ some g → g ≡ f
    some_fun e = cc

two_rules :
    {P Q : Type 0} (d : Destination) (r t : EgressRule)
    → RuleAdmits d r ↔ P
    → RuleAdmits d t ↔ Q
    → OneOf (RuleAdmits d) (r ∷ t ∷ []) ↔ (P ⊎ Q)
two_rules d r t e f = (
  λ h. elim h [ inl p ↦ inl (e.0 p) | inr q ↦ elim q [ inl p ↦ inr (f.0 p) | inr x ↦ absurd x ] ],
  λ h. elim h [ inl p ↦ inl (e.1 p) | inr q ↦ inr (inl (f.1 q)) ],
)

-- `intstr.FromInt` converts an `int` to the `int32` of the object: it keeps the low 32 bits.
abbrev pub KeepsInt32 : (ℕ → ℕ) → Type 0
KeepsInt32 from_int = (n : ℕ) → from_int n ≡ n % 2 ^ 32

module _ (getenv : Text → Text) (from_int : ℕ → ℕ) (kept : KeepsInt32 from_int) where
  IsPort53-iff : (d : Destination) → RuleAdmits d (dns_rule getenv from_int) ↔ IsPort53 d
  IsPort53-iff d = (
    λ (any, h). elim h [
      | inl p ↦ (inl p.0, p.1 ∙ kept 53)
      | inr q ↦ elim q [ inl p ↦ (inr p.0, p.1 ∙ kept 53) | inr x ↦ absurd x ]
    ],
    λ (p, e). (
      tt,
      elim p [ inl u ↦ inl (u, e ∙ sym (kept 53)) | inr t ↦ inr (inl (t, e ∙ sym (kept 53))) ],
    ),
  )

  IsHttps-iff : (d : Destination) → RuleAdmits d (https_rule getenv from_int) ↔ IsHttps d
  IsHttps-iff d = (
    λ (any, h). elim h [ inl p ↦ (p.0, p.1 ∙ kept 443) | inr x ↦ absurd x ],
    λ p. (tt, inl (p.0, p.1 ∙ sym (kept 443))),
  )

  IsProxy-iff : (d : Destination) → RuleAdmits d (proxy_rule getenv from_int) ↔ IsProxy getenv d
  unfolding proxy_rule
  IsProxy-iff d =
      let (there, back) =
        labels_iff ((codes "kubernetes.io/metadata.name", egress_proxy_namespace getenv) ∷ [])
          d.labels in
      (
        λ (peers, ports). elim peers [
          | inl p ↦
              let (labels, e, carried) = there p in
              elim ports [
                | inl q ↦ ((labels, e, carried.0), q.0, q.1 ∙ kept (egress_proxy_port getenv))
                | inr x ↦ absurd x
              ]
          | inr x ↦ absurd x
        ],
        λ ((labels, e, name), q, port). (
          inl (back (labels, e, (name, tt))),
          inl (q, port ∙ sym (kept (egress_proxy_port getenv))),
        ),
      )

  admits_iff :
      (d : Destination) (proxy : Bool)
      → OneOf (RuleAdmits d) (
          if proxy
          then dns_rule getenv from_int ∷ proxy_rule getenv from_int ∷ []
          else dns_rule getenv from_int ∷ https_rule getenv from_int ∷ [])
        ↔ Reaches getenv proxy d
  admits_iff d true =
      two_rules d (dns_rule getenv from_int) (proxy_rule getenv from_int) (IsPort53-iff d)
        (IsProxy-iff d)
  admits_iff d false =
      two_rules d (dns_rule getenv from_int) (https_rule getenv from_int) (IsPort53-iff d)
        (IsHttps-iff d)

-- The policy of a task's namespace covers both directions and lets nothing in. With the proxy it lets
-- out exactly UDP and TCP to port 53 of every host, inside the cluster and outside, and TCP to the
-- proxy's port in the proxy's namespace, of which port the low 32 bits count; without it exactly
-- that port 53 and TCP to port 443 of every host. This rests on `intstr.FromInt` keeping the low 32
-- bits of an `int`.
pub sandbox_policy-admits :
    (getenv : Text → Text) (from_int : ℕ → ℕ)
    → KeepsInt32 from_int
    → (ns : Text) (d : Destination)
    → ((sandbox_policy getenv from_int ns).ingress_rules ≡ [])
      × ((sandbox_policy getenv from_int ns).policy_types ≡ ingress_policy ∷ egress_policy ∷ [])
      × (PolicyAdmits (sandbox_policy getenv from_int ns) d
          ↔ Reaches getenv (egress_proxy_enabled getenv) d)
unfolding sandbox_policy egress_rules
sandbox_policy-admits getenv from_int kept ns d =
    (refl, refl, admits_iff getenv from_int kept d (egress_proxy_enabled getenv))
