-- ===== src/Core/Settings.antt =====
-- internal/core/engine.go and ingest_work.go: the engine replaces settings that are out of range by
-- constants of its own; valid settings are used as they are.
use ghost_vault.Prelude.{ℕ, Bool, ◌≡◌, ◌<◌, refl, true, false, not, ◌&&◌, ◌||◌, arith}
use ghost_vault.Prelude.Int.{ℤ, pos, negsuc, ltb_ℤ}
use ghost_vault.Extern.{Float64}
use ghost_vault.Config.Tuning.{RuntimeTuning}
use ghost_vault.Config.Tuning.Layers.{validate, outside_unit, below_one}
use ghost_vault.Core.Scoring.{clamp_weight}
use ghost_vault.Core.Retrieve.{session_boost, effective_max_chunks}
use ghost_vault.Core.Ingest.{chunk_size, chunk_overlap, at_least_one}

both : (a b : Bool) → (a && b) ≡ true → (a ≡ true) × (b ≡ true)
both true b h = (refl, h)
both false b h = absurd (cc h)

not-true : (a : Bool) → not a ≡ true → a ≡ false
not-true true h = absurd (cc h)
not-true false h = refl

at_least_one-used : (n : ℤ) (d : ℕ) → not (below_one n) ≡ true → pos (at_least_one n d) ≡ n
at_least_one-used n d h = ground (arith, h)

module _ {F : Type 0} ⦃o : Float64 F⦄ (t : RuntimeTuning F) where
  -- The engine uses the settings themselves.
  pub record IsUsed : Type 0 where
    pub weight : clamp_weight t.fusion_lexical_weight ≡ t.fusion_lexical_weight
    pub boost : session_boost t.session_prefer_score_boost ≡ t.session_prefer_score_boost
    pub size : pos (chunk_size t.chunk_rune_size) ≡ t.chunk_rune_size
    pub overlap : pos (chunk_overlap t.chunk_overlap t.chunk_rune_size) ≡ t.chunk_overlap
    pub overlap_lt : chunk_overlap t.chunk_overlap t.chunk_rune_size < chunk_size t.chunk_rune_size
    pub keep : pos (at_least_one t.prune_session_messages_keep 100) ≡ t.prune_session_messages_keep
    pub recent :
        pos (at_least_one t.recent_session_messages_infer 20) ≡ t.recent_session_messages_infer
    pub max_chunks :
        pos (effective_max_chunks (pos 0) t.retrieve_default_max_chunks)
        ≡ t.retrieve_default_max_chunks

  clamp_weight-used : (w : F) → not (outside_unit w) ≡ true → clamp_weight w ≡ w
  unfolding clamp_weight
  clamp_weight-used w h = ground (arith, h)

  session_boost-used : (b : F) → not (o.lt b (o.lit 1 0)) ≡ true → session_boost b ≡ b
  unfolding session_boost
  session_boost-used b h = ground (arith, h)

  max_chunks-used : (n : ℤ) → not (below_one n) ≡ true → pos (effective_max_chunks (pos 0) n) ≡ n
  unfolding effective_max_chunks
  max_chunks-used n h = ground (arith, h)

  overlap-used :
      (over size : ℤ)
      → not (below_one size) ≡ true
      → not (ltb_ℤ over (pos 0) || not (ltb_ℤ over size)) ≡ true
      → (pos (chunk_overlap over size) ≡ over) × (chunk_overlap over size < chunk_size size)
  unfolding chunk_overlap chunk_size
  overlap-used (pos n) (pos m) h k = (ground (arith, h, k), ground (arith, h, k))
  overlap-used (negsuc n) size h k = absurd (ground (arith, k))
  overlap-used (pos n) (negsuc m) h k = absurd (ground (arith, h))

  -- Of settings that Validate accepts, the engine replaces none: the fusion weight, the boost, the
  -- chunk size and overlap, the numbers of messages and the default limit are those of the settings,
  -- and the overlap is less than the chunk size.
  pub validate-IsUsed : validate t ≡ true → IsUsed
  unfolding validate chunk_size
  validate-IsUsed h =
      let (h1, _) = both _ _ h in
      let (h2, _) = both _ _ h1 in
      let (h3, _) = both _ _ h2 in
      let (h4, keep) = both _ _ h3 in
      let (h5, recent) = both _ _ h4 in
      let (h6, overlap) = both _ _ h5 in
      let (h7, size) = both _ _ h6 in
      let (h8, boost) = both _ _ h7 in
      let (h9, _) = both _ _ h8 in
      let (h10, _) = both _ _ h9 in
      let (h11, chunks) = both _ _ h10 in
      let (_, weight) = both _ _ h11 in
      let (over, over_lt) = overlap-used t.chunk_overlap t.chunk_rune_size size overlap in
      record {
        weight = clamp_weight-used t.fusion_lexical_weight weight;
        boost = session_boost-used t.session_prefer_score_boost boost;
        size = at_least_one-used t.chunk_rune_size 2000 size;
        overlap = over;
        overlap_lt = over_lt;
        keep = at_least_one-used t.prune_session_messages_keep 100 keep;
        recent = at_least_one-used t.recent_session_messages_infer 20 recent;
        max_chunks = max_chunks-used t.retrieve_default_max_chunks chunks;
      }
