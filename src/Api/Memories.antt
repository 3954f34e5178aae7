-- ===== src/Api/Memories.antt =====
-- internal/api/handlers.go: ingest, retrieve, getChunk and deleteChunk, from the headers of a request
-- to its answer. A problem is its status and its code.
pub mod Isolation
pub mod Answers
use ghost_vault.Prelude.{
  ℕ, Bool, not, ◌&&◌, ◌||◌, if◌then◌else◌, Option, none, some, List, [], ◌∷◌, Assoc,
}
use ghost_vault.Prelude.Int.{ℤ}
use ghost_vault.Text.{Text, Casing, codes, is_empty, text_beq, trim_space, normalise}
use ghost_vault.Extern.{Uuids, Json, Float64}
use ghost_vault.Outcome.{Error, Result, ok, err, vault_locked, not_found}
use ghost_vault.Outcome.Action.{Action, ◌>>◌, pure, ignore}
use ghost_vault.Auth.{Session}
use ghost_vault.Auth.Manager
use ghost_vault.Auth.Manager.{Outcome, done, refused, Faults}
use ghost_vault.Store.{ChunkForVaultRow}
use ghost_vault.Store.Tables.{Db, append_session_message, soft_delete_chunk}
use ghost_vault.Core.ChunkBody.{ChunkBody}
use ghost_vault.Core.Snippet.{RetrieveSnippet}
use ghost_vault.Core.Engine.{Reads}
use ghost_vault.Core.Retrieve.Run.{
  Engine, RetrieveInput, RetrieveDebugInfo, retrieve_with_debug, get_chunk_by_id,
}
use ghost_vault.Core.Ingest.{IngestItem, IngestInput, SourceDocumentIn, is_blank}
use ghost_vault.Core.Ingest.Persist.{Services}
use ghost_vault.Core.Ingest.Run.{IngestDebugInfo, ingest_with_debug}
use ghost_vault.Api.{Request, Server, require_vault_auth}
use ghost_vault.Api.Vaults.{Response, problem, answer, auth_problem}

pub record IngestMessage : Type 0 where
  pub role : Text
  pub content : Text

-- The fields that the handler reads.
pub record IngestReq (V : Type 0) : Type 0 where
  pub vault_id : Text
  pub user_id : Text
  pub session_key : Text
  pub text : Text
  pub abstract : Text
  pub kind : Text
  pub metadata : Option (Assoc Text V)
  pub items : List (IngestItem V)
  pub source_document : Option SourceDocumentIn
  pub infer : Bool
  pub infer_target : Text
  pub messages : List IngestMessage
  pub debug : Bool

pub record RetrieveReq : Type 0 where
  pub vault_id : Text
  pub user_id : Text
  pub query : Text
  pub max_chunks : ℤ
  pub max_tokens : ℤ
  pub session_key : Text
  pub session_mode : Text
  pub content_mode : Text
  pub debug : Bool

-- The part of the request's source document that is used: one with a text.
abbrev pub source_of : Option SourceDocumentIn → Option SourceDocumentIn
source_of none = none
source_of (some d) =
    if is_blank d.text
    then none
    else some (record { text = trim_space d.text; title = trim_space d.title })

abbrev pub or_default : Text → Text → Text
or_default default s = if is_empty s then default else s

abbrev pub is_session_mode : Text → Bool
is_session_mode mode =
    text_beq mode (codes "all") || text_beq mode (codes "only") || text_beq mode (codes "prefer")

abbrev pub is_content_mode : Text → Bool
is_content_mode mode =
    text_beq mode (codes "auto")
    || text_beq mode (codes "abstract")
    || text_beq mode (codes "full")
    || text_beq mode (codes "both")
    || text_beq mode (codes "default")

-- The error that GetChunkByID gives, as a problem. The engine's model has one error for all
-- failures of the read.
abbrev pub chunk_problem : {A : Type 0} → Error → Response A
chunk_problem not_found = problem 404 (codes "not_found")
chunk_problem vault_locked = auth_problem Manager.vault_locked
chunk_problem _ = problem 500 (codes "chunk")

abbrev pub delete_problem : {A : Type 0} → Error → Response A
delete_problem not_found = problem 404 (codes "not_found")
delete_problem _ = problem 500 (codes "store")

-- `parse` is `uuid.Parse`. `debug_on` is the server's setting `retrieve_debug`.
module _ {U E V F : Type 0} ⦃i : Uuids U⦄ ⦃u : Casing⦄ ⦃o : Float64 F⦄
    (parse : Text → Option U) where
  module _ (sv : Services U E) (e : Engine F) (j : Json V) (debug_on : Bool) where
    -- The loop over the messages of a request; an error of a statement is dropped.
    unfoldable pub append_all : U → Text → Text → List IngestMessage → Action (Db U E V) (Unit {0})
    unfolding append_session_message
    append_all vault user key [] = pure tt
    append_all vault user key (m ∷ ms) =
        ignore (
          append_session_message sv.fails (record {
            vault_id = vault;
            user_id = user;
            session_key = key;
            role = m.role;
            content = m.content;
          }))
        >> append_all vault user key ms

    abbrev pub input_of : U → Session U → IngestReq V → IngestInput U V
    input_of vault sess q = record {
      vault_id = vault;
      user_id = q.user_id;
      session_key = or_default (codes "default") q.session_key;
      text = q.text;
      abstract = q.abstract;
      kind = q.kind;
      metadata = q.metadata;
      items = q.items;
      source_document = source_of q.source_document;
      infer = q.infer;
      infer_target = q.infer_target;
      session = some sess;
    }

    -- The messages, then the engine.
    unfoldable pub ingest_for :
        U → Session U → IngestReq V → Action (Db U E V) (List U × Option IngestDebugInfo)
    unfolding append_all ingest_with_debug
    ingest_for vault sess q =
        append_all vault q.user_id (or_default (codes "default") q.session_key) q.messages
        >> ingest_with_debug sv e j (input_of vault sess q) (debug_on && q.debug)

    abbrev pub ingest_answer :
        Result (List U × Option IngestDebugInfo) × Db U E V
        → Response (List U × Option IngestDebugInfo) × Db U E V
    ingest_answer (ok r, db) = (answer 200 r, db)
    ingest_answer (err x, db) = (problem 500 (codes "ingest"), db)

    abbrev pub ingest_matching :
        U
        → Option U
        → Session U
        → IngestReq V
        → Db U E V
        → Response (List U × Option IngestDebugInfo) × Db U E V
    ingest_matching vault none sess q db = (problem 400 (codes "validate"), db)
    ingest_matching vault (some id) sess q db =
        if not (i.id_eq.beq id vault)
        then (problem 403 (codes "vault"), db)
        else ingest_answer (ingest_for id sess q db)

    abbrev pub ingest_body :
        Session U
        → U
        → Option (IngestReq V)
        → Db U E V
        → Response (List U × Option IngestDebugInfo) × Db U E V
    ingest_body sess vault none db = (problem 400 (codes "json"), db)
    ingest_body sess vault (some q) db =
        if is_empty q.vault_id || is_empty q.user_id
        then (problem 400 (codes "validate"), db)
        else ingest_matching vault (parse q.vault_id) sess q db

    abbrev pub ingest_auth :
        Outcome (Session U × U)
        → Option (IngestReq V)
        → Db U E V
        → Response (List U × Option IngestDebugInfo) × Db U E V
    ingest_auth (refused x) body db = (auth_problem x, db)
    ingest_auth (done (sess, vault)) body db = ingest_body sess vault body db

    -- The handler `ingest`; `none` is a body that is no JSON of the request.
    unfoldable pub serve_ingest :
        (Text → List ℕ)
        → Faults
        → Request
        → ℕ
        → Option (IngestReq V)
        → Server U
        → Db U E V
        → Response (List U × Option IngestDebugInfo) × Server U × Db U E V
    serve_ingest hash faults r now body s db =
        let auth = require_vault_auth hash faults r now s in
        let answered = ingest_auth auth.0 body db in (answered.0, auth.1, answered.1)

  module _ (hash : Text → List ℕ) (faults : Faults) (reads : Reads U F E) (j : Json V)
      (e : Engine F) where
    abbrev pub chunk_answer :
        Result (ChunkForVaultRow U × ChunkBody V) → Response (ChunkForVaultRow U × ChunkBody V)
    chunk_answer (ok r) = answer 200 r
    chunk_answer (err x) = chunk_problem x

    abbrev pub get_matching : Session U → U → Option U → Response (ChunkForVaultRow U × ChunkBody V)
    get_matching sess vault none = problem 400 (codes "validate")
    get_matching sess vault (some id) =
        chunk_answer (get_chunk_by_id reads j e vault id (some sess))

    abbrev pub get_auth :
        Outcome (Session U × U) → Text → Response (ChunkForVaultRow U × ChunkBody V)
    get_auth (refused x) id = auth_problem x
    get_auth (done (sess, vault)) id = get_matching sess vault (parse id)

    unfoldable pub get_chunk :
        Request → ℕ → Text → Server U → Response (ChunkForVaultRow U × ChunkBody V) × Server U
    get_chunk r now id s =
        let auth = require_vault_auth hash faults r now s in (get_auth auth.0 id, auth.1)

    abbrev pub Retrieved : Type 0
    Retrieved = List (RetrieveSnippet U F) × Option (RetrieveDebugInfo U F)

    abbrev pub retrieve_answer : Result Retrieved → Response Retrieved
    retrieve_answer (ok r) = answer 200 r
    retrieve_answer (err x) = problem 500 (codes "retrieve")

    abbrev pub retrieve_input : Session U → U → RetrieveReq → Text → Text → RetrieveInput U
    retrieve_input sess vault q mode content = record {
      vault_id = vault;
      user_id = q.user_id;
      query = q.query;
      max_chunks = q.max_chunks;
      max_tokens = q.max_tokens;
      session = some sess;
      opts = record { session_key = q.session_key; session_mode = mode; content_mode = content };
    }

    module _ (debug_on : Bool) where
      -- The modes, and the engine.
      unfoldable pub retrieve_modes : Session U → U → RetrieveReq → Response Retrieved
      unfolding retrieve_with_debug
      retrieve_modes sess vault q =
          let mode = or_default (codes "all") (normalise q.session_mode) in
          let content = or_default (codes "auto") (normalise q.content_mode) in
          if not (is_session_mode mode)
          then problem 400 (codes "validate")
          else if text_beq mode (codes "only") && is_blank q.session_key
          then problem 400 (codes "validate")
          else if not (is_content_mode content)
          then problem 400 (codes "validate")
          else retrieve_answer (
              retrieve_with_debug reads j e (retrieve_input sess vault q mode content)
                (debug_on && q.debug))

      abbrev pub retrieve_matching : Session U → U → Option U → RetrieveReq → Response Retrieved
      retrieve_matching sess vault none q = problem 403 (codes "vault")
      retrieve_matching sess vault (some id) q =
          if not (i.id_eq.beq id vault)
          then problem 403 (codes "vault")
          else retrieve_modes sess id q

      abbrev pub retrieve_body : Session U → U → Option RetrieveReq → Response Retrieved
      retrieve_body sess vault none = problem 400 (codes "json")
      retrieve_body sess vault (some q) =
          if is_empty q.vault_id || is_empty q.user_id || is_blank q.query
          then problem 400 (codes "validate")
          else retrieve_matching sess vault (parse q.vault_id) q

      abbrev pub retrieve_auth : Outcome (Session U × U) → Option RetrieveReq → Response Retrieved
      retrieve_auth (refused x) body = auth_problem x
      retrieve_auth (done (sess, vault)) body = retrieve_body sess vault body

      unfoldable pub serve_retrieve :
          Request → ℕ → Option RetrieveReq → Server U → Response Retrieved × Server U
      serve_retrieve r now body s =
          let auth = require_vault_auth hash faults r now s in (retrieve_auth auth.0 body, auth.1)

module _ {U E V : Type 0} ⦃i : Uuids U⦄ ⦃u : Casing⦄ (parse : Text → Option U)
    (hash : Text → List ℕ) (faults : Faults) (fails : ℕ → Bool) where
  abbrev pub delete_answer : Result (Unit {0}) × Db U E V → Response (Unit {0}) × Db U E V
  delete_answer (ok t, db) = (answer 204 tt, db)
  delete_answer (err x, db) = (delete_problem x, db)

  abbrev pub delete_matching : U → Option U → Db U E V → Response (Unit {0}) × Db U E V
  delete_matching vault none db = (problem 400 (codes "validate"), db)
  delete_matching vault (some id) db = delete_answer (soft_delete_chunk fails vault id db)

  abbrev pub delete_auth :
      Outcome (Session U × U) → Text → Db U E V → Response (Unit {0}) × Db U E V
  delete_auth (refused x) id db = (auth_problem x, db)
  delete_auth (done (sess, vault)) id db = delete_matching vault (parse id) db

  unfoldable pub delete_chunk :
      Request → ℕ → Text → Server U → Db U E V → Response (Unit {0}) × Server U × Db U E V
  delete_chunk r now id s db =
      let auth = require_vault_auth hash faults r now s in
      let answered = delete_auth auth.0 id db in (answered.0, auth.1, answered.1)
