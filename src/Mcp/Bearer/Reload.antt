-- ===== src/Mcp/Bearer/Reload.antt =====
-- internal/mcpbridge/bearer.go: reloading reads the file that the token was taken from.
use ghost_vault.Prelude.{
  ◌≡◌, ◌⊎◌, inl, inr, refl, ap, ◌∙◌, Bool, true, false, Option, none, some, [], if◌then◌else◌,
  Bool-cases, arith,
}
use ghost_vault.Text.{Text, is_empty, trim_space}
use ghost_vault.Mcp.Bearer.{
  Host, token, no_source, token_path, token_of_file, bearer_from_env_and_file,
  token_reload_path_if_file_based,
}

module _ (host : Host) where
  -- The token is what the argument gives, and nothing is reloaded.
  abbrev pub FromArgument : Text → Text → Text → Type 0
  FromArgument bearer flag t =
      (t ≡ trim_space bearer) × (token_reload_path_if_file_based host bearer flag ≡ [])

  -- The token is what the file at the path of reloading holds.
  pub record FromFile (bearer flag t : Text) : Type 0 where
    pub content : Text
    pub read : host.read_file (token_reload_path_if_file_based host bearer flag) ≡ some content
    pub trimmed : t ≡ trim_space content
    pub named : is_empty (token_reload_path_if_file_based host bearer flag) ≡ false

  token_of_file-token :
      (path : Text) (o : Option Text) {t : Text}
      → token_of_file host path o ≡ token t
      → (content : Text) × (o ≡ some content) × (t ≡ trim_space content) × (is_empty t ≡ false)
  token_of_file-token path none h = absurd (cc h)
  token_of_file-token path (some c) {t} h = elim (Bool-cases (is_empty (trim_space c))) [
    | inl e ↦ absurd (ground (arith, e, h))
    | inr e ↦
        let same : t ≡ trim_space c = ground (arith, e, h) in (c, refl, same, ap is_empty same ∙ e)
  ]

  branches :
      (b c : Bool) (path t' : Text) (o : Option Text) {t : Text}
      → (if b then if c then no_source else token_of_file host path o else token t') ≡ token t
      → ((b ≡ false) × (t ≡ t'))
        ⊎ ((b ≡ true) × (c ≡ false) × (token_of_file host path o ≡ token t))
  branches true true path t' o h = absurd (cc h)
  branches true false path t' o h = inr (refl, refl, h)
  branches false c path t' o h = inl (refl, cc h)

  -- A token that the bridge starts with is not empty. It is the one of the argument, and then no file
  -- is read again; or the content of the file that is read again for every later request.
  bearer_from_env_and_file-token :
      (bearer flag : Text) {t : Text}
      → bearer_from_env_and_file host bearer flag ≡ token t
      → (is_empty t ≡ false) × (FromArgument bearer flag t ⊎ FromFile bearer flag t)
  unfolding bearer_from_env_and_file token_reload_path_if_file_based
  bearer_from_env_and_file-token bearer flag {t} h =
      elim (branches (is_empty (trim_space bearer)) (is_empty (token_path host flag))
        (token_path host flag) (trim_space bearer) (host.read_file (token_path host flag)) h) [
          | inl (given, same) ↦ (
            ap is_empty same ∙ given,
            inl (same, rw (given, token_reload_path_if_file_based) refl),
          )
          | inr (blank, named, e) ↦
              let (content, read, same, full) = token_of_file-token (token_path host flag) _ e in
              let path : token_reload_path_if_file_based host bearer flag ≡ token_path host flag =
                rw (blank, token_reload_path_if_file_based) refl in
              (
                full,
                inr (record {
                  content = content;
                  read = ap host.read_file path ∙ read;
                  trimmed = same;
                  named = ap is_empty path ∙ named;
                }),
              )
        ]
