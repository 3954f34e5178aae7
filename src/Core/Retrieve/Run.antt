-- ===== src/Core/Retrieve/Run.antt =====
-- internal/core/engine.go: RetrieveWithDebug, Retrieve and GetChunkByID.
use mathlib.Core.Option
use ghost_vault.Prelude.{
  ℕ, Bool, false, not, ◌&&◌, ◌||◌, Option, none, some, List, [], ◌∷◌, map, if◌then◌else◌, Assoc,
}
use ghost_vault.Prelude.Int.{ℤ}
use ghost_vault.Text.{Text, codes, is_empty, text_beq, trim_space, Casing, normalise}
use ghost_vault.Extern.{Float64, Uuids, Json, eq_of_uuids}
use ghost_vault.Auth.{Session}
use ghost_vault.Config.{Config}
use ghost_vault.Config.Tuning.{RuntimeTuning, default_runtime_tuning}
use ghost_vault.Store.{ChunkCandidate, ChunkForVaultRow}
use ghost_vault.Core.Scoring.{
  ScoredChunk, FusionRankRow, rank_chunks_fusion_detail, normalize_lexical,
}
use ghost_vault.Core.ChunkBody.{ChunkBody}
use ghost_vault.Core.Snippet.{RetrieveSnippet}
use ghost_vault.Core.Engine.{
  Result, ok, err, ◌>>=◌, ◌>>◌, unless, or_error, Reads, is_locked, payload_to_chunk_body,
  vault_locked, openai_required, embed_failed, empty_embedding, search_failed, not_found,
}
use ghost_vault.Core.Retrieve.{
  RetrieveOpts, effective_max_chunks, k_dense, in_session, boost_session_preference,
}
use ghost_vault.Core.Retrieve.Pack.{Pack, no_pack, pack}

pub record RetrieveDebugParams (F : Type 0) : Type 0 where
  pub semantic_threshold : F
  pub fusion_lexical_weight : F
  pub embedding_model : Text
  pub k_dense : ℤ
  pub max_chunks : ℕ
  pub max_tokens : ℤ
  pub session_mode : Text
  pub session_key : Text
  pub content_mode : Text

pub record DenseDebugRow (U F : Type 0) : Type 0 where
  pub chunk_id : U
  pub semantic_score : F
  pub passed_threshold : Bool

pub record LexicalDebugRow (U F : Type 0) : Type 0 where
  pub chunk_id : U
  pub raw_lex_rank : F
  pub lexical_norm : F

pub record FusedDebugRow (U F : Type 0) : Type 0 where
  pub chunk_id : U
  pub semantic_score : F
  pub lexical_norm : F
  pub fused_score : F
  pub session_boost_applied : Bool
  pub score_after_session : F

pub record RetrieveDebugInfo (U F : Type 0) : Type 0 where
  pub params : RetrieveDebugParams F
  pub dense_candidates : List (DenseDebugRow U F)
  pub lexical_candidates : List (LexicalDebugRow U F)
  pub fused_ranked : List (FusedDebugRow U F)
  pub packing : Pack U F

-- The engine's settings; `none` is a nil TuningState.
pub record Engine (F : Type 0) : Type 0 where
  pub cfg : Config
  pub tuning : Option (RuntimeTuning F)
  pub has_client : Bool

-- The arguments of RetrieveWithDebug.
pub record RetrieveInput (U : Type 0) : Type 0 where
  pub vault_id : U
  pub user_id : Text
  pub query : Text
  pub max_chunks : ℤ
  pub max_tokens : ℤ
  pub session : Option (Session U)
  pub opts : RetrieveOpts

module _ {F : Type 0} ⦃o : Float64 F⦄ where
  abbrev pub tuning_of : Engine F → RuntimeTuning F
  tuning_of e = elim e.tuning [ none ↦ default_runtime_tuning | some t ↦ t ]

  -- `e.OA == nil || e.Cfg.OpenAIAPIKey == ""`
  abbrev pub lacks_client : Engine F → Bool
  lacks_client e = not e.has_client || is_empty e.cfg.openai_api_key

abbrev pub mode_or : Text → Text → Text
mode_or default mode = if is_empty mode then default else mode

module _ {U F : Type 0} ⦃i : Uuids U⦄ ⦃o : Float64 F⦄ where
  abbrev find_row : U → List (FusionRankRow U F) → FusionRankRow U F
  find_row id [] = record {
    id = i.nil;
    semantic_score = o.lit 0 0;
    lexical_norm = o.lit 0 0;
    fused_score = o.lit 0 0;
  }
  find_row id (r ∷ rows) = if i.id_eq.beq r.id id then r else find_row id rows

  -- The chunks after the optional boost, with the key map that the boost used. A failing lookup of
  -- the session keys leaves the ranking as it is.
  unfoldable pub after_session :
      Option F
      → Text
      → Option (Assoc U (Option Text))
      → List (ScoredChunk U F)
      → List (ScoredChunk U F)
  unfolding boost_session_preference
  after_session none key keys ranked = ranked
  after_session (some boost) key none ranked = ranked
  after_session (some boost) key (some keys) ranked = boost_session_preference boost key keys ranked

  -- `mode == "prefer" && sKey != "" && len(ranked) > 0`: the ids are then looked up.
  unfoldable pub session_keys_for :
      {E : Type 0}
      → Reads U F E
      → Text
      → Text
      → List (ScoredChunk U F)
      → Option (Assoc U (Option Text))
  session_keys_for db mode key [] = none
  session_keys_for db mode key (r ∷ rs) =
      if text_beq mode (codes "prefer") && not (is_empty key)
      then db.session_keys (map (λ c. c.id) (r ∷ rs))
      else none

  abbrev fused_debug_row :
      List (FusionRankRow U F)
      → Text
      → Text
      → Option (Assoc U (Option Text))
      → ScoredChunk U F
      → FusedDebugRow U F
  fused_debug_row rows mode key keys c =
      let fr = find_row c.id rows in
      record {
        chunk_id = c.id;
        semantic_score = fr.semantic_score;
        lexical_norm = fr.lexical_norm;
        fused_score = fr.fused_score;
        session_boost_applied = elim keys [
          | none ↦ false
          | some m ↦ in_session key m c.id && text_beq mode (codes "prefer") && not (is_empty key)
        ];
        score_after_session = c.score;
      }

  abbrev dense_debug_row : F → ChunkCandidate U F → DenseDebugRow U F
  dense_debug_row threshold c = record {
    chunk_id = c.chunk_id;
    semantic_score = c.semantic_score;
    passed_threshold = o.lt threshold c.semantic_score || o.eq threshold c.semantic_score;
  }

  abbrev lexical_debug_row : ChunkCandidate U F → LexicalDebugRow U F
  lexical_debug_row c = record {
    chunk_id = c.chunk_id;
    raw_lex_rank = c.raw_lex_rank;
    lexical_norm = normalize_lexical c.raw_lex_rank;
  }

abbrev pub first_vector : {E : Type 0} → List E → Result E
first_vector [] = err empty_embedding
first_vector (v ∷ vs) = ok v

-- What is fetched and ranked before packing.
pub record Ranked (U F : Type 0) : Type 0 where
  pub dense : List (ChunkCandidate U F)
  pub lexical : List (ChunkCandidate U F)
  pub rows : List (FusionRankRow U F)
  pub keys : Option (Assoc U (Option Text))
  pub chunks : List (ScoredChunk U F)

module _ {U : Type 0} ⦃u : Casing⦄ (q : RetrieveInput U) where
  abbrev pub session_mode : Text
  session_mode = mode_or (codes "all") (normalise q.opts.session_mode)

  abbrev pub session_key : Text
  session_key = trim_space q.opts.session_key

  abbrev pub content_mode : Text
  content_mode = mode_or (codes "auto") (normalise q.opts.content_mode)

module _ {U F : Type 0} ⦃i : Uuids U⦄ ⦃o : Float64 F⦄ ⦃u : Casing⦄ where
  abbrev pub limit : Engine F → RetrieveInput U → ℕ
  limit e q = effective_max_chunks q.max_chunks (tuning_of e).retrieve_default_max_chunks

  abbrev pub fetch_limit : Engine F → RetrieveInput U → ℤ
  fetch_limit e q =
      let tn = tuning_of e in
      k_dense (limit e q) tn.retrieve_k_dense_multiplier tn.retrieve_k_dense_min

  unfoldable pub rank :
      {E : Type 0} → Reads U F E → Engine F → RetrieveInput U → Result (Ranked U F)
  unfolding k_dense effective_max_chunks rank_chunks_fusion_detail session_keys_for after_session
  rank db e q = do
    unless (is_locked e.cfg q.session) vault_locked
    unless (lacks_client e) openai_required
    let tn = tuning_of e
    vecs ← or_error embed_failed (db.embed tn.embedding_model q.query)
    qv ← first_vector vecs
    let key = session_key q
    let only = text_beq (session_mode q) (codes "only") && not (is_empty key)
    let k = fetch_limit e q
    dense ←
        or_error search_failed
          (db.search_dense q.vault_id q.user_id tn.embedding_model qv k key only)
    lex ← or_error search_failed (db.search_lexical q.vault_id q.user_id q.query k key only)
    let rows = rank_chunks_fusion_detail dense lex tn.semantic_threshold tn.fusion_lexical_weight
    let ranked : List (ScoredChunk U F) =
        map (λ r. record { id = r.id; score = r.fused_score }) rows
    let keys = session_keys_for db (session_mode q) key ranked
    let boost = Option.map (λ t. t.session_prefer_score_boost) e.tuning
    ok (record {
      dense = dense;
      lexical = lex;
      rows = rows;
      keys = keys;
      chunks = after_session boost key keys ranked;
    })

  unfoldable pub debug_info :
      Engine F → RetrieveInput U → Ranked U F → Pack U F → RetrieveDebugInfo U F
  debug_info e q r packing =
      let tn = tuning_of e in
      record {
        params = record {
          semantic_threshold = tn.semantic_threshold;
          fusion_lexical_weight = tn.fusion_lexical_weight;
          embedding_model = tn.embedding_model;
          k_dense = fetch_limit e q;
          max_chunks = limit e q;
          max_tokens = q.max_tokens;
          session_mode = session_mode q;
          session_key = session_key q;
          content_mode = content_mode q;
        };
        dense_candidates = map (dense_debug_row tn.semantic_threshold) r.dense;
        lexical_candidates = map lexical_debug_row r.lexical;
        fused_ranked =
            map (fused_debug_row r.rows (session_mode q) (session_key q) r.keys) r.chunks;
        packing = packing;
      }

module _ {U F E V : Type 0} ⦃i : Uuids U⦄ ⦃o : Float64 F⦄ ⦃u : Casing⦄ where
  module _ (db : Reads U F E) (j : Json V) (e : Engine F) where
    -- `GetChunkPayload` and `payloadToChunkBody` of one ranked chunk.
    unfoldable pub load_chunk : Option (Session U) → U → Result (ChunkBody V)
    load_chunk session id = do
      p ← or_error not_found (db.get_chunk_payload id)
      payload_to_chunk_body db e.cfg j session p

    -- What follows the ranking.
    unfoldable pub pack_ranked :
        RetrieveInput U
        → Bool
        → Ranked U F
        → List (RetrieveSnippet U F) × Option (RetrieveDebugInfo U F)
    unfolding load_chunk debug_info pack
    pack_ranked q want_debug r =
        let load = load_chunk q.session in
        let packed =
          pack want_debug q.max_tokens (content_mode q) (limit e q) load r.chunks no_pack in
        (packed.out, if want_debug then some (debug_info e q r packed) else none)

    unfoldable pub retrieve_with_debug :
        RetrieveInput U
        → Bool
        → Result (List (RetrieveSnippet U F) × Option (RetrieveDebugInfo U F))
    unfolding rank pack_ranked
    retrieve_with_debug q want_debug = do r ← rank db e q; ok (pack_ranked q want_debug r)

    unfoldable pub retrieve : RetrieveInput U → Result (List (RetrieveSnippet U F))
    unfolding retrieve_with_debug
    retrieve q = do r ← retrieve_with_debug q false; ok r.0

    -- `GetChunkByID`: the row with its body as the program reads it.
    unfoldable pub get_chunk_by_id :
        U → U → Option (Session U) → Result (ChunkForVaultRow U × ChunkBody V)
    get_chunk_by_id vault_id chunk_id session = do
      unless (is_locked e.cfg session) vault_locked
      row ← or_error not_found (db.get_chunk_for_vault vault_id chunk_id)
      cb ← payload_to_chunk_body db e.cfg j session row.payload
      ok (row, cb)
