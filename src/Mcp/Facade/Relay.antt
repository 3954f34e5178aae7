-- ===== src/Mcp/Facade/Relay.antt =====
-- internal/mcpbridge/oauth_facade.go: the headers that the bridge passes on.
use ghost_vault.Prelude.{◌≡◌, false, List, [], ◌∷◌, Assoc, All, Bool-cases, inl, inr}
use ghost_vault.Text.{Text}
use ghost_vault.Mcp.OAuth.{OAuthHttp}
use ghost_vault.Mcp.Facade.{Net, is_hop_by_hop, header_lines, relayed_headers}

module _ (net : Net) (o : OAuthHttp) where
  -- The line is end to end, and not of this connection only.
  abbrev pub IsEndToEnd : Text × Text → Type 0
  IsEndToEnd h = is_hop_by_hop h.0 ≡ false

  lines-IsEndToEnd :
      (k : Text) (vs : List Text) (rest : List (Text × Text))
      → is_hop_by_hop k ≡ false
      → All IsEndToEnd rest
      → All IsEndToEnd (header_lines net o k vs rest)
  lines-IsEndToEnd k [] rest h all = all
  lines-IsEndToEnd k (v ∷ vs) rest h all = (h, lines-IsEndToEnd k vs rest h all)

  -- No header of the list of hop-by-hop headers is passed on, in whatever case the server writes it.
  pub relayed_headers-IsEndToEnd :
      (hs : Assoc Text (List Text)) → All IsEndToEnd (relayed_headers net o hs)
  unfolding relayed_headers
  relayed_headers-IsEndToEnd [] = tt
  relayed_headers-IsEndToEnd ((k, vs) ∷ hs) = elim (Bool-cases (is_hop_by_hop (net.canonical k))) [
    | inl e ↦ rw (e, relayed_headers) (relayed_headers-IsEndToEnd hs)
    | inr e ↦
        rw (e, relayed_headers)
          (lines-IsEndToEnd (net.canonical k) vs _ e (relayed_headers-IsEndToEnd hs))
  ]
