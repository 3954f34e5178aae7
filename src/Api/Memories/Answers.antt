-- ===== src/Api/Memories/Answers.antt =====
-- internal/api/handlers.go: what an answered retrieval was asked for.
use mathlib.Core.Path.{subst}
use ghost_vault.Prelude.{
  ℕ, ◌≡◌, refl, Bool, true, false, not, ◌&&◌, ◌||◌, if◌then◌else◌, Option, none, some, List, arith,
}
use ghost_vault.Text.{Text, Casing, codes, is_empty, text_beq, normalise}
use ghost_vault.Extern.{Uuids, Json, Float64}
use ghost_vault.Outcome.{Result, ok, err}
use ghost_vault.Auth.{Session}
use ghost_vault.Auth.Manager.{Outcome, done, refused, Faults}
use ghost_vault.Core.Engine.{Reads}
use ghost_vault.Core.Retrieve.Run.{Engine, retrieve_with_debug}
use ghost_vault.Core.Ingest.{is_blank}
use ghost_vault.Api.{Request, Server, require_vault_auth}
use ghost_vault.Api.Vaults.{Response, problem, answer}
use ghost_vault.Api.Memories.{
  RetrieveReq, or_default, is_session_mode, is_content_mode, Retrieved, retrieve_answer,
  retrieve_input, retrieve_modes, retrieve_matching, retrieve_body, retrieve_auth, serve_retrieve,
}

if-answer :
    {A : Type 0} (b : Bool) (n : ℕ) (code : Text) (x : Response A) {a : A}
    → (if b then problem n code else x) ≡ answer 200 a
    → (b ≡ false) × (x ≡ answer 200 a)
if-answer true n code x h = absurd (cc h)
if-answer false n code x h = (refl, h)

module _ {U E V F : Type 0} ⦃i : Uuids U⦄ ⦃u : Casing⦄ ⦃o : Float64 F⦄ (parse : Text → Option U)
    (hash : Text → List ℕ) (faults : Faults) (reads : Reads U F E) (j : Json V) (e : Engine F)
    (debug_on : Bool) where
  -- What an answered request asked for: its vault is the one that it was let in to, its modes are
  -- known ones, a search of one session names it, and the answer is the engine's.
  pub record IsAnswer (sess : Session U) (vault : U) (q : RetrieveReq)
      (a : Retrieved parse hash faults reads j e) : Type 0 where
    pub same_vault : parse q.vault_id ≡ some vault
    pub has_query : is_blank q.query ≡ false
    pub session_mode : is_session_mode (or_default (codes "all") (normalise q.session_mode)) ≡ true
    pub has_key :
        (text_beq (or_default (codes "all") (normalise q.session_mode)) (codes "only")
          && is_blank q.session_key)
        ≡ false
    pub content_mode : is_content_mode (or_default (codes "auto") (normalise q.content_mode)) ≡ true
    pub found :
        retrieve_with_debug reads j e
          (retrieve_input parse hash faults reads j e sess vault q
            (or_default (codes "all") (normalise q.session_mode))
            (or_default (codes "auto") (normalise q.content_mode)))
          (debug_on && q.debug)
        ≡ ok a

  retrieve_answer-ok :
      (x : Result (Retrieved parse hash faults reads j e))
      {a : Retrieved parse hash faults reads j e}
      → retrieve_answer parse hash faults reads j e x ≡ answer 200 a
      → x ≡ ok a
  retrieve_answer-ok (ok b) h = cc h
  retrieve_answer-ok (err x) h = absurd (cc h)

  not-false : (b : Bool) → not b ≡ false → b ≡ true
  not-false true h = refl
  not-false false h = absurd (cc h)

  modes-IsAnswer :
      (sess : Session U) (vault : U) (q : RetrieveReq) {a : Retrieved parse hash faults reads j e}
      → parse q.vault_id ≡ some vault
      → is_blank q.query ≡ false
      → retrieve_modes parse hash faults reads j e debug_on sess vault q ≡ answer 200 a
      → IsAnswer sess vault q a
  unfolding retrieve_modes
  modes-IsAnswer sess vault q same_vault has_query h =
      let mode = or_default (codes "all") (normalise q.session_mode) in
      let content = or_default (codes "auto") (normalise q.content_mode) in
      let (known, h₁) = if-answer (not (is_session_mode mode)) _ _ _ h in
      let (keyed, h₂) =
        if-answer (text_beq mode (codes "only") && is_blank q.session_key) _ _ _ h₁ in
      let (shown, h₃) = if-answer (not (is_content_mode content)) _ _ _ h₂ in
      record {
        same_vault = same_vault;
        has_query = has_query;
        session_mode = not-false _ known;
        has_key = keyed;
        content_mode = not-false _ shown;
        found = retrieve_answer-ok _ h₃;
      }

  matching-IsAnswer :
      (sess : Session U) (vault : U) (q : RetrieveReq) (id : Option U)
      {a : Retrieved parse hash faults reads j e}
      → parse q.vault_id ≡ id
      → is_blank q.query ≡ false
      → retrieve_matching parse hash faults reads j e debug_on sess vault id q ≡ answer 200 a
      → IsAnswer sess vault q a
  matching-IsAnswer sess vault q none parsed has_query h = absurd (cc h)
  matching-IsAnswer sess vault q (some id) {a} parsed has_query h =
      let (same, h₁) = if-answer (not (i.id_eq.beq id vault)) _ _ _ h in
      let e₁ = (i.id_eq.beq_iff id vault).0 (not-false _ same) in
      subst (λ v. IsAnswer sess v q a) e₁ (modes-IsAnswer sess id q parsed has_query h₁)

  body-IsAnswer :
      (sess : Session U) (vault : U) (body : Option RetrieveReq)
      {a : Retrieved parse hash faults reads j e}
      → retrieve_body parse hash faults reads j e debug_on sess vault body ≡ answer 200 a
      → (q : RetrieveReq) × (body ≡ some q) × IsAnswer sess vault q a
  body-IsAnswer sess vault none h = absurd (cc h)
  body-IsAnswer sess vault (some q) h =
      let (asked, h₁) =
        if-answer (is_empty q.vault_id || is_empty q.user_id || is_blank q.query) _ _ _ h in
      (q, refl, matching-IsAnswer sess vault q _ refl (ground (arith, asked)) h₁)

  auth-IsAnswer :
      (auth : Outcome (Session U × U)) (body : Option RetrieveReq)
      {a : Retrieved parse hash faults reads j e}
      → retrieve_auth parse hash faults reads j e debug_on auth body ≡ answer 200 a
      → (sess : Session U) × (vault : U) × (q : RetrieveReq) × (auth ≡ done (sess, vault))
        × (body ≡ some q)
        × IsAnswer sess vault q a
  auth-IsAnswer (refused x) body h = absurd (cc h)
  auth-IsAnswer (done (sess, vault)) body h =
      let (q, e₁, given) = body-IsAnswer sess vault body h in (sess, vault, q, refl, e₁, given)

  -- A retrieval that is answered with 200 comes from a request that is let in, asks for the vault that
  -- it is let in to and for known modes, names a session if it searches only one, and gives what the
  -- engine gives for that vault under the session of the request.
  pub serve_retrieve-IsAnswer :
      (r : Request) (now : ℕ) (body : Option RetrieveReq) (s : Server U)
      {a : Retrieved parse hash faults reads j e}
      → (serve_retrieve parse hash faults reads j e debug_on r now body s).0 ≡ answer 200 a
      → (sess : Session U) × (vault : U) × (q : RetrieveReq) × ((require_vault_auth hash faults r
            now s).0
          ≡ done (sess, vault))
        × (body ≡ some q)
        × IsAnswer sess vault q a
  unfolding serve_retrieve
  serve_retrieve-IsAnswer r now body s h = auth-IsAnswer _ body h
