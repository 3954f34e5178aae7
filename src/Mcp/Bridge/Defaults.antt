-- ===== src/Mcp/Bridge/Defaults.antt =====
-- internal/mcpbridge/bridge.go: the vault that a tool's request names.
use ghost_vault.Prelude.{◌≡◌, refl, ◌∙◌, ap, false, Bool-cases, inl, inr, arith}
use ghost_vault.Text.{Text, is_empty, trim_space}
use ghost_vault.Text.Laws.{trim_space_idem}
use ghost_vault.Mcp.Bridge.{BridgeConfig, is_placeholder, with_default_vault}

-- A bridge with a vault of its own sends no placeholder for a vault: what the model leaves out or calls
-- `default` is replaced by that vault, and any other vault stays as it was given.
with_default_vault-named :
    (c : BridgeConfig) (vault : Text)
    → is_placeholder (trim_space c.default_vault_id) ≡ false
    → (is_placeholder (trim_space (with_default_vault c vault)) ≡ false)
      × (is_placeholder (trim_space vault) ≡ false → with_default_vault c vault ≡ vault)
unfolding with_default_vault
with_default_vault-named c vault named =
    let given : is_empty (trim_space c.default_vault_id) ≡ false = ground (arith, named) in
    elim (Bool-cases (is_placeholder (trim_space vault))) [
      | inl e ↦
          rw (e, given)
            (ap is_placeholder (trim_space_idem c.default_vault_id) ∙ named, λ h. absurd (cc h))
      | inr e ↦ rw e (e, λ h. refl)
    ]
