-- ===== src/ImportCapabilities/Enabled.antt =====
-- When an import is enabled.
use ubeeq.Common.{
  String, ◌≡◌, ◌↔◌, Bool, true, false, not, any-eq-false, any-eq-false_of_All, All, All-map,
  contains, is_some, arith,
}
use ubeeq.ImportCapabilities.{Support, Capability, Connection, readiness}

-- What an enabled import has: the action is implemented, the host runs imports, the connection's
-- mode reads history, and it is authorized with every permission and a selected source.
pub record Permitted (c : Capability) (n : Connection) : Type 0 where
  pub implemented : c.support ≡ Support.implemented
  pub hosted : n.host_enabled ≡ true
  pub available : n.temporarily_unavailable ≡ false
  pub mode : contains c.connection_modes n.mode ≡ true
  pub authorized : n.authorized ≡ true
  pub permissions : All (λ p. contains n.permissions p ≡ true) c.required_permissions
  pub source : n.source_selected ≡ true

abbrev lacks : Connection → String → Bool
lacks n p = not (contains n.permissions p)

-- An import is enabled exactly if everything that it needs is there, and a reason is given exactly
-- if it is not enabled.
pub readiness_iff :
    (c : Capability) (n : Connection)
    → ((readiness c n).enabled ≡ true ↔ Permitted c n)
      × (is_some (readiness c n).reason ≡ not (readiness c n).enabled)
unfolding readiness
readiness_iff c n = (
  (
    λ h. record {
      implemented = ground arith;
      hosted = ground arith;
      available = ground arith;
      mode = ground arith;
      authorized = ground arith;
      permissions =
          All-map c.required_permissions (λ p e. ground arith)
            (any-eq-false (lacks n) c.required_permissions (ground arith));
      source = ground arith;
    },
    λ h. ground (
      arith,
      any-eq-false_of_All (lacks n) c.required_permissions
          (All-map c.required_permissions (λ p e. ground arith) h.permissions),
    ),
  ),
  ground arith,
)
