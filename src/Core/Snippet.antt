-- ===== src/Core/Snippet.antt =====
-- internal/core/engine.go: which text of a chunk a retrieve response carries.
pub mod Laws
use ghost_vault.Prelude.{Bool, false, not, ◌&&◌, ◌||◌, [], if◌then◌else◌}
use ghost_vault.Text.{Text, codes, is_empty, text_beq, trim_space, Casing, normalise}
use ghost_vault.Core.ChunkBody.{ChunkBody}

pub record RetrieveSnippet (U F : Type 0) : Type 0 where
  pub chunk_id : U
  pub text : Text
  pub score : F
  pub abstract : Text
  pub full_text : Text
  pub full_available : Bool
  pub kind : Text

module _ {V : Type 0} where
  unfoldable pub resolve_retrieve_content_mode : ⦃u : Casing⦄ → Text → ChunkBody V → Text
  resolve_retrieve_content_mode req cb =
      let r = normalise req in
      let by_abstract =
        if is_empty (trim_space cb.abstract) then codes "full" else codes "abstract" in
      if is_empty r || text_beq r (codes "auto")
      then by_abstract
      else if text_beq r (codes "default")
      then by_abstract
      else r

  module _ {U F : Type 0} where
    unfoldable pub build_retrieve_snippet : U → ChunkBody V → F → Text → RetrieveSnippet U F
    build_retrieve_snippet id cb score mode =
        let a = trim_space cb.abstract in
        let b = trim_space cb.body in
        let s : RetrieveSnippet U F = record {
          chunk_id = id;
          text = [];
          score = score;
          abstract = [];
          full_text = [];
          full_available = false;
          kind = cb.kind;
        } in
        if text_beq mode (codes "full")
        then record s { text = cb.body; full_available = false }
        else if text_beq mode (codes "both")
        then record s {
          text = if is_empty a then cb.body else a;
          abstract = cb.abstract;
          full_text = cb.body;
          full_available = not (is_empty b);
        }
        else if is_empty a
        then record s { text = cb.body; full_available = false }
        else record s {
          text = cb.abstract;
          abstract = cb.abstract;
          full_available = not (is_empty b) && not (text_beq a b);
        }
