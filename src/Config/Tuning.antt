-- ===== src/Config/Tuning.antt =====
-- internal/config/tuning.go: the effective settings and their defaults.
pub mod Layers
pub mod State
use ghost_vault.Prelude.{Bool, false}
use ghost_vault.Prelude.Int.{ℤ, pos}
use ghost_vault.Text.{Text, codes}
use ghost_vault.Extern.{Float64}

pub record RuntimeTuning (F : Type 0) : Type 0 where
  pub semantic_threshold : F
  pub fusion_lexical_weight : F
  pub retrieve_default_max_chunks : ℤ
  pub retrieve_k_dense_min : ℤ
  pub retrieve_k_dense_multiplier : ℤ
  pub session_prefer_score_boost : F
  pub chunk_rune_size : ℤ
  pub chunk_overlap : ℤ
  pub recent_session_messages_infer : ℤ
  pub prune_session_messages_keep : ℤ
  pub infer_llm_model : Text
  pub embedding_model : Text
  pub max_body_bytes : ℤ
  pub retrieve_debug : Bool
  pub http_access_log : Bool

abbrev pub default_runtime_tuning : {F : Type 0} ⦃o : Float64 F⦄ → RuntimeTuning F
default_runtime_tuning ⦃o⦄ = record {
  semantic_threshold = o.lit 25 2;
  fusion_lexical_weight = o.lit 35 2;
  retrieve_default_max_chunks = pos 16;
  retrieve_k_dense_min = pos 60;
  retrieve_k_dense_multiplier = pos 4;
  session_prefer_score_boost = o.lit 115 2;
  chunk_rune_size = pos 2000;
  chunk_overlap = pos 200;
  recent_session_messages_infer = pos 20;
  prune_session_messages_keep = pos 100;
  infer_llm_model = codes "gpt-4o-mini";
  embedding_model = codes "text-embedding-3-small";
  max_body_bytes = pos 0x100000;
  retrieve_debug = false;
  http_access_log = false;
}
