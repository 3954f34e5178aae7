-- ===== src/Mcp/Bearer.antt =====
-- internal/mcpbridge/bearer.go: where the bridge takes its session token from.
pub mod Reload
use ghost_vault.Prelude.{Bool, [], Option, none, some, if◌then◌else◌}
use ghost_vault.Text.{Text, codes, is_empty, trim_space}

-- The environment and the file system: the value of a variable, whether a path is there and is no
-- folder, and the content of a file.
pub record Host : Type 0 where
  pub getenv : Text → Text
  pub is_file : Text → Bool
  pub read_file : Text → Option Text

pub data Bearer : Type 0 where
  token : Text → Bearer
  no_source : Bearer
  unreadable empty_file : Text → Bearer

abbrev pub default_path : Text
default_path = codes ".ghostvault-bearer"

abbrev pub or_else : Text → Text → Text
or_else s default = if is_empty s then default else s

module _ (host : Host) where
  -- The flag, else the variable, else the default file where it is there.
  unfoldable pub token_path : Text → Text
  token_path flag = or_else (trim_space flag) (
      or_else (trim_space (host.getenv (codes "GHOSTVAULT_TOKEN_FILE")))
        (if host.is_file default_path then default_path else []))

  abbrev pub token_of_file : Text → Option Text → Bearer
  token_of_file path none = unreadable path
  token_of_file path (some content) =
      let t = trim_space content in if is_empty t then empty_file path else token t

  unfoldable pub bearer_from_env_and_file : Text → Text → Bearer
  bearer_from_env_and_file bearer flag =
      let t = trim_space bearer in
      let path = token_path flag in
      if is_empty t
      then if is_empty path then no_source else token_of_file path (host.read_file path)
      else token t

  unfoldable pub token_reload_path_if_file_based : Text → Text → Text
  token_reload_path_if_file_based bearer flag =
      if is_empty (trim_space bearer) then token_path flag else []
