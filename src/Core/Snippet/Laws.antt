-- ===== src/Core/Snippet/Laws.antt =====
-- The snippet that is built, the tokens that are charged for it, and the flags on it.
use ghost_vault.Prelude.{◌+◌, ◌≡◌, ◌≢◌, not, ◌&&◌, ◌||◌, arith, if◌then◌else◌}
use ghost_vault.Text.{Text, codes, is_empty, text_beq, text_beq_iff, trim_space, Casing, normalise}
use ghost_vault.Text.Laws.{normalise_idem, normalise_full, normalise_abstract, trim_space_idem}
use ghost_vault.Core.ChunkBody.{
  ChunkBody, est_tok, estimated_return_tokens, full_body_available, same_abstract_and_body,
}
use ghost_vault.Core.Snippet.{resolve_retrieve_content_mode, build_retrieve_snippet}

module _ {V U F : Type 0} ⦃u : Casing⦄ (cb : ChunkBody V) (id : U) (score : F) where
  -- A resolved mode is its own normal form.
  pub resolved_normal :
      (req : Text)
      → normalise (resolve_retrieve_content_mode req cb) ≡ resolve_retrieve_content_mode req cb
  unfolding resolve_retrieve_content_mode
  resolved_normal req =
      ground (arith, normalise_full ⦃u = u⦄, normalise_abstract ⦃u = u⦄, normalise_idem req)

  -- Whatever mode is asked for, the tokens charged are those of the text parts that the snippet
  -- carries: its abstract and full text in mode both, and its text in every other mode.
  charged :
      (req : Text)
      → let mode = resolve_retrieve_content_mode req cb in
        let s = build_retrieve_snippet id cb score mode in
        estimated_return_tokens cb mode ≡ (
          if text_beq mode (codes "both")
          then est_tok s.abstract + est_tok s.full_text
          else est_tok s.text)
  unfolding estimated_return_tokens build_retrieve_snippet
  charged req = rw (resolved_normal req) (
      let mode = resolve_retrieve_content_mode req cb in
      ground (arith, text_beq_iff mode (codes "both"), text_beq_iff mode (codes "full")))

  -- In every mode but full the snippet has text unless abstract and body are both blank, and it
  -- says that a full body is available exactly when there is one that, outside mode both, also
  -- differs from the abstract.
  snippet_flags :
      (mode : Text)
      → mode ≢ codes "full"
      → let s = build_retrieve_snippet id cb score mode in
        (is_empty (trim_space s.text)
          ≡ (is_empty (trim_space cb.abstract) && is_empty (trim_space cb.body)))
        × (s.full_available ≡ (
            full_body_available cb
            && (text_beq mode (codes "both") || not (same_abstract_and_body cb))))
  unfolding build_retrieve_snippet full_body_available same_abstract_and_body
  snippet_flags mode not_full = (
    ground (
      arith,
      text_beq_iff mode (codes "both"),
      text_beq_iff mode (codes "full"),
      trim_space_idem cb.abstract,
    ),
    ground (arith, text_beq_iff mode (codes "both"), text_beq_iff mode (codes "full")),
  )
