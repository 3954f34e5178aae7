-- ===== src/Core/Retrieve/Owned.antt =====
-- internal/core/engine.go: a retrieval over the tables of internal/store/store.go.
use mathlib.Core.List.{Sublistᴰ}
use ghost_vault.Prelude.{
  ℕ, ◌≡◌, not, ◌&&◌, Bool, Option, none, some, List, [], ◌∷◌, map, All, All-map_of, Assoc,
  Bool-cases, inl, inr,
}
use ghost_vault.Text.{Text, Casing, is_empty, text_beq, codes}
use ghost_vault.Extern.{Float64, Uuids, Json, eq_of_uuids}
use ghost_vault.Prelude.Int.{ℤ}
use ghost_vault.Store.{ChunkCandidate}
use ghost_vault.Store.Tables.{Db}
use ghost_vault.Store.Reading.{
  ingest_session_keys_by_chunk_ids, get_source_document_for_vault, get_chunk_payload,
  get_chunk_for_vault,
}
use ghost_vault.Store.Searching.{Postgres, search_dense, search_lexical}
use ghost_vault.Store.Searching.Found.{IsFound, search_dense-IsFound}
use ghost_vault.Core.Sorting.Laws.{sort_slice-All}
use ghost_vault.Core.Scoring.{ScoredChunk}
use ghost_vault.Core.Scoring.Candidates.{rank_chunks-All}
use ghost_vault.Core.Snippet.{RetrieveSnippet}
use ghost_vault.Core.Engine.{
  ok, search_failed, embed_failed, Reads, bind-eq_ok, or_error, or_error-eq_ok, ok-inj, unless,
  is_locked, vault_locked, openai_required,
}
use ghost_vault.Core.Retrieve.{
  boost_session_preference, boosted, session_boost, in_session, scores_above,
}
use ghost_vault.Core.Retrieve.PackOrder.{snippet_key, chunk_key, pack-Sublist}
use ghost_vault.Core.Retrieve.Run.{
  Engine, RetrieveInput, RetrieveDebugInfo, Ranked, rank, retrieve_with_debug, pack_ranked,
  session_mode, session_key, after_session, lacks_client, tuning_of, first_vector, fetch_limit,
  load_chunk, limit, content_mode,
}

-- The engine on the tables; the embedding call and the cipher are those of `other`.
abbrev pub reads_from :
    {U F E V : Type 0} ⦃i : Uuids U⦄ ⦃o : Float64 F⦄
    → Postgres U E F
    → (Assoc Text V → Text)
    → (U → ℕ)
    → Db U E V
    → Reads U F E
    → Reads U F E
reads_from pg encode created_at db other = record other {
  search_dense = λ vault user model query k key only.
      search_dense pg vault user model query k key only db.embeddings db.chunks;
  search_lexical =
      λ vault user query k key only. search_lexical pg vault user query k key only db.chunks;
  session_keys = λ ids. some (ingest_session_keys_by_chunk_ids ids db.chunks);
  get_source_document = λ vault doc. get_source_document_for_vault created_at vault doc db.sources;
  get_chunk_payload = λ id. get_chunk_payload encode created_at id db.chunks;
  get_chunk_for_vault = λ vault id. get_chunk_for_vault encode created_at vault id db.chunks;
}

All-Sublist {ℓ κ} :
    {A : Type ℓ} (P : A → Type κ) {xs ys : List A} → Sublistᴰ xs ys → All P ys → All P xs
All-Sublist P Sublistᴰ.slnil h = tt
All-Sublist P (Sublistᴰ.cons s) (p, h) = All-Sublist P s h
All-Sublist P (Sublistᴰ.cons-cons e s) (p, h) = (rw e p, All-Sublist P s h)

All-of_map {ℓ κ μ} :
    {A : Type ℓ} {B : Type κ} (f : A → B) (P : B → Type μ) (xs : List A)
    → All P (map f xs)
    → All (λ x. P (f x)) xs
All-of_map f P [] h = tt
All-of_map f P (x ∷ xs) (p, h) = (p, All-of_map f P xs h)

module _ {U F : Type 0} ⦃i : Uuids U⦄ ⦃o : Float64 F⦄ (P : U → Type 0) where
  abbrev OfIds : List (ScoredChunk U F) → Type 0
  OfIds = All (λ c. P c.id)

  boosted-OfIds :
      (boost : F) (key : Text) (keys : Assoc U (Option Text)) (ranked : List (ScoredChunk U F))
      → OfIds ranked
      → OfIds (map (boosted boost key keys) ranked)
  unfolding boosted
  boosted-OfIds boost key keys [] h = tt
  boosted-OfIds boost key keys (c ∷ cs) (p, h) = elim (Bool-cases (in_session key keys c.id)) [
    | inl e ↦ rw e (p, boosted-OfIds boost key keys cs h)
    | inr e ↦ rw e (p, boosted-OfIds boost key keys cs h)
  ]

  after_session-OfIds :
      (boost : Option F) (key : Text) (keys : Option (Assoc U (Option Text)))
      (ranked : List (ScoredChunk U F))
      → OfIds ranked
      → OfIds (after_session boost key keys ranked)
  unfolding after_session boost_session_preference
  after_session-OfIds none key keys ranked h = h
  after_session-OfIds (some boost) key none ranked h = h
  after_session-OfIds (some boost) key (some keys) ranked h = elim (Bool-cases (is_empty key)) [
    | inl e ↦ rw e h
    | inr e ↦ rw e (
        sort_slice-All scores_above (λ c. P c.id) _
          (boosted-OfIds (session_boost boost) key keys ranked h))
  ]

-- `mode == "only" && sKey != ""`
abbrev pub searches_session : {U : Type 0} ⦃u : Casing⦄ → RetrieveInput U → Bool
searches_session q = text_beq (session_mode q) (codes "only") && not (is_empty (session_key q))

module _ {U F E : Type 0} ⦃i : Uuids U⦄ ⦃o : Float64 F⦄ ⦃u : Casing⦄ (db : Reads U F E)
    (e : Engine F) (q : RetrieveInput U) (P : U → Type 0) where
  -- Whatever the dense search of this retrieval finds satisfies P.
  abbrev DenseFinds : Type 0
  DenseFinds =
      (v : E) (k : ℤ) (found : List (ChunkCandidate U F))
      → db.search_dense q.vault_id q.user_id (tuning_of e).embedding_model v k (session_key q)
          (searches_session q)
        ≡ some found
      → All (λ c. P c.chunk_id) found

  rank-OfIds : DenseFinds → {r : Ranked U F} → rank db e q ≡ ok r → OfIds P r.chunks
  unfolding rank
  rank-OfIds finds {r} h =
      let (_, _, h₁) = bind-eq_ok (unless (is_locked e.cfg q.session) vault_locked) _ h in
      let (_, _, h₂) = bind-eq_ok (unless (lacks_client e) openai_required) _ h₁ in
      let (vecs, _, h₃) =
        bind-eq_ok (or_error embed_failed (db.embed (tuning_of e).embedding_model q.query)) _ h₂ in
      let (v, _, h₄) = bind-eq_ok (first_vector vecs) _ h₃ in
      let (dense, found, h₅) =
        bind-eq_ok (or_error search_failed (db.search_dense _ _ _ v _ _ _)) _ h₄ in
      let (lex, _, h₆) = bind-eq_ok (or_error search_failed (db.search_lexical _ _ _ _ _ _)) _ h₅ in
      let tn = tuning_of e in
      let rows =
        rank_chunks-All P dense lex tn.semantic_threshold tn.fusion_lexical_weight
          (finds v (fetch_limit e q) dense (or_error-eq_ok search_failed _ found)) in
      rw (← ok-inj h₆) (
        after_session-OfIds P _ (session_key q) _ _
          (All-map_of (λ r. record { id = r.id; score = r.fused_score }) (λ c. P c.id) _ rows))

  retrieve-OfIds :
      {V : Type 0} (j : Json V) (want : Bool)
      {ran : List (RetrieveSnippet U F) × Option (RetrieveDebugInfo U F)}
      → DenseFinds
      → retrieve_with_debug db j e q want ≡ ok ran
      → All (λ s. P s.chunk_id) ran.0
  unfolding retrieve_with_debug pack_ranked
  retrieve-OfIds j want finds h =
      let (r, ranked, h₁) = bind-eq_ok (rank db e q) _ h in
      let keys = All-map_of chunk_key (λ k. P k.0) r.chunks (rank-OfIds finds ranked) in
      let sub =
        pack-Sublist want q.max_tokens (content_mode q) (limit e q) (load_chunk db j e q.session)
          r.chunks in
      rw (← ok-inj h₁) (All-of_map snippet_key (λ k. P k.0) _ (All-Sublist (λ k. P k.0) sub keys))

module _ {U F E V : Type 0} ⦃i : Uuids U⦄ ⦃o : Float64 F⦄ ⦃u : Casing⦄ (pg : Postgres U E F)
    (encode : Assoc Text V → Text) (created_at : U → ℕ) (db : Db U E V) (other : Reads U F E)
    (j : Json V) (e : Engine F) (q : RetrieveInput U) (want : Bool) where
  -- Over the tables of the store, whatever order the database scans them in, each snippet of a
  -- retrieval that succeeds has the id of a row of memory_chunks that is not deleted and is of the
  -- vault and the user of the request; where mode "only" names a session, also of that session.
  pub retrieve-IsFound :
      {ran : List (RetrieveSnippet U F) × Option (RetrieveDebugInfo U F)}
      → retrieve_with_debug (reads_from pg encode created_at db other) j e q want ≡ ok ran
      → All
          (λ s.
            IsFound q.vault_id q.user_id (session_key q) (searches_session q) db.chunks s.chunk_id)
          ran.0
  retrieve-IsFound h =
      retrieve-OfIds (reads_from pg encode created_at db other) e q
        (IsFound q.vault_id q.user_id (session_key q) (searches_session q) db.chunks) j want
        (λ v k found.
          search_dense-IsFound q.vault_id q.user_id (session_key q) (searches_session q) pg
            (tuning_of e).embedding_model v k db.embeddings db.chunks)
        h
