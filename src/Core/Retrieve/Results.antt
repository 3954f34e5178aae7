-- ===== src/Core/Retrieve/Results.antt =====
-- The whole retrieval.
use ghost_vault.Prelude.{◌≤◌, ◌≡◌, refl, ap, sym, Bool, true, false, Option, List, length}
use ghost_vault.Text.{Casing}
use ghost_vault.Extern.{Float64, Uuids, Json}
use ghost_vault.Auth.{Session}
use ghost_vault.Store.{ChunkForVaultRow}
use ghost_vault.Core.ChunkBody.{ChunkBody}
use ghost_vault.Core.Snippet.{RetrieveSnippet}
use ghost_vault.Core.Engine.{
  Result, ok, err, ◌>>=◌, Reads, is_locked, bind-eq_ok, unless, not_stopped, vault_locked,
  openai_required,
}
use ghost_vault.Core.Retrieve.Packing.{out-pack_debug, pack-IsAccounted}
use ghost_vault.Core.Retrieve.Run.{
  Engine, RetrieveInput, Ranked, rank, limit, content_mode, load_chunk, retrieve_with_debug,
  retrieve, get_chunk_by_id, lacks_client, pack_ranked,
}

module _ {U F E V : Type 0} ⦃i : Uuids U⦄ ⦃o : Float64 F⦄ ⦃u : Casing⦄ where
  module _ (db : Reads U F E) (j : Json V) (e : Engine F) where
    out-pack_ranked :
        (q : RetrieveInput U) (r : Ranked U F)
        → (pack_ranked db j e q true r).0 ≡ (pack_ranked db j e q false r).0
    unfolding pack_ranked
    out-pack_ranked q r = sym (
        out-pack_debug q.max_tokens (content_mode q) (limit e q) (load_chunk db j e q.session)
          r.chunks)

    -- Asking for debug output changes neither the snippets nor the error.
    retrieve_debug_irrelevant :
        (q : RetrieveInput U)
        → (retrieve_with_debug db j e q true >>= λ r. ok r.0) ≡ retrieve db j e q
    unfolding retrieve
    retrieve_debug_irrelevant q = go (rank db e q)
      where
        finish : Bool → Result (Ranked U F) → Result (List (RetrieveSnippet U F))
        finish want r = r >>= (λ r'. ok (pack_ranked db j e q want r')) >>= λ x. ok x.0

        go : (r : Result (Ranked U F)) → finish true r ≡ finish false r
        go (err x) = refl
        go (ok r) = ap ok (out-pack_ranked q r)

    retrieve-eq_ok :
        (q : RetrieveInput U) {snips : List (RetrieveSnippet U F)}
        → retrieve db j e q ≡ ok snips
        → (r : Ranked U F) × (rank db e q ≡ ok r) × ((pack_ranked db j e q true r).0 ≡ snips)
    unfolding retrieve
    retrieve-eq_ok q h =
        let (x, ran, e₁) = bind-eq_ok _ _ h in
        let (r, ranked, e₂) = bind-eq_ok (rank db e q) _ ran in
        (r, ranked, cc (out-pack_ranked q r, e₁, e₂))

    -- A retrieval returns at most as many snippets as its effective limit.
    length-retrieve :
        (q : RetrieveInput U) {snips : List (RetrieveSnippet U F)}
        → retrieve db j e q ≡ ok snips
        → length snips ≤ limit e q
    unfolding pack_ranked
    length-retrieve q h =
        let (r, ranked, out) = retrieve-eq_ok q h in
        rw (← out)
          (pack-IsAccounted q.max_tokens (content_mode q) (limit e q) (load_chunk db j e q.session)
            r.chunks).chunks_le

    rank_needs_key :
        (q : RetrieveInput U) {r : Ranked U F}
        → rank db e q ≡ ok r
        → (is_locked e.cfg q.session ≡ false) × (lacks_client e ≡ false)
    unfolding rank
    rank_needs_key q h =
        let (_, a, rest) = bind-eq_ok (unless (is_locked e.cfg q.session) vault_locked) _ h in
        let (_, b, _) = bind-eq_ok (unless (lacks_client e) openai_required) _ rest in
        (not_stopped _ _ a, not_stopped _ _ b)

    -- A retrieval that succeeds had a data key, where encryption is on, and an OpenAI client with a
    -- key.
    retrieve_needs_key :
        (q : RetrieveInput U) {snips : List (RetrieveSnippet U F)}
        → retrieve db j e q ≡ ok snips
        → (is_locked e.cfg q.session ≡ false) × (lacks_client e ≡ false)
    retrieve_needs_key q h = let (r, ranked, _) = retrieve-eq_ok q h in rank_needs_key q ranked

    -- Reading one chunk succeeds only with a data key, where encryption is on.
    get_chunk_needs_key :
        (vault_id chunk_id : U) (session : Option (Session U))
        {r : ChunkForVaultRow U × ChunkBody V}
        → get_chunk_by_id db j e vault_id chunk_id session ≡ ok r
        → is_locked e.cfg session ≡ false
    unfolding get_chunk_by_id
    get_chunk_needs_key vault_id chunk_id session h =
        let (_, a, _) = bind-eq_ok (unless (is_locked e.cfg session) vault_locked) _ h in
        not_stopped _ _ a
