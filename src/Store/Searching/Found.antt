-- ===== src/Store/Searching/Found.antt =====
-- internal/store/store.go: what the dense search can find.
use mathlib.Core.List.{Mem, mem-cons_self, mem-cons_of_mem}
use ghost_vault.Prelude.{
  ℕ, zero, suc, ◌≡◌, refl, Bool, true, false, not, ◌&&◌, Option, none, some, List, [], ◌∷◌,
  if◌then◌else◌, take, All, All-append, All-map, arith,
}
use ghost_vault.Prelude.Int.{ℤ, pos, negsuc}
use ghost_vault.Text.{Text, is_empty, text_beq, text_beq_iff}
use ghost_vault.Extern.{Uuids, Float64}
use ghost_vault.Store.{ChunkCandidate}
use ghost_vault.Store.Tables.{ChunkRow}
use ghost_vault.Store.Searching.{
  Postgres, is_searched, dense_candidate, joined, dense_hits, search_dense, limited, of_session,
}

module _ {ℓ κ} {A : Type ℓ} (P : A → Type κ) where
  All-take : (n : ℕ) (xs : List A) → All P xs → All P (take n xs)
  All-take zero xs h = tt
  All-take (suc n) [] h = tt
  All-take (suc n) (x ∷ xs) (p, h) = (p, All-take n xs h)

module _ {A : Type 0} (P : A → Type 0) where
  limited-All : (n : ℤ) (xs : List A) {ys : List A} → limited n xs ≡ some ys → All P xs → All P ys
  limited-All (pos n) xs {ys} e h = let e₁ : take n xs ≡ ys = cc in rw (← e₁) (All-take P n xs h)
  limited-All (negsuc n) xs e h = cc e

  query-All :
      (fails : Bool) (n : ℤ) (xs : List A) {ys : List A}
      → (if fails then none else limited n xs) ≡ some ys
      → All P xs
      → All P ys
  query-All true n xs e h = cc e
  query-All false n xs e h = limited-All n xs e h

session_of_test :
    (key : Text) (only : Bool) (k : Option Text)
    → (only && not (is_empty key)) ≡ true
    → of_session key only k ≡ true
    → k ≡ some key
session_of_test key only none e h = ground arith
session_of_test key only (some k) e h = ground (arith, text_beq_iff k key)

module _ {U E V : Type 0} (vault : U) (user key : Text) (only : Bool) where
  -- A live row of the vault and the user, and of the session where only one is searched.
  pub record IsVisible (r : ChunkRow U E V) : Type 0 where
    pub same_vault : r.chunk.vault_id ≡ vault
    pub same_user : r.chunk.user_id ≡ user
    pub live : r.deleted ≡ false
    pub same_session : (only && not (is_empty key)) ≡ true → r.chunk.ingest_session_key ≡ some key

  -- The id is that of such a row of the table.
  abbrev pub IsFound : List (ChunkRow U E V) → U → Type 0
  IsFound rows id = (r : ChunkRow U E V) × Mem r rows × (r.chunk.id ≡ id) × IsVisible r

  IsFound-cons :
      (r : ChunkRow U E V) (rows : List (ChunkRow U E V)) (id : U)
      → IsFound rows id
      → IsFound (r ∷ rows) id
  IsFound-cons r rows id (r', m, h, v) = (r', mem-cons_of_mem r m, h, v)

  module _ ⦃i : Uuids U⦄ where
    is_searched-IsVisible :
        (r : ChunkRow U E V) → is_searched vault user key only r ≡ true → IsVisible r
    unfolding is_searched
    is_searched-IsVisible r h = record {
      same_vault = ground (arith, i.id_eq.beq_iff r.chunk.vault_id vault);
      same_user = ground (arith, text_beq_iff r.chunk.user_id user);
      live = ground arith;
      same_session = λ e. session_of_test key only r.chunk.ingest_session_key e (ground arith);
    }

  module _ {F : Type 0} ⦃i : Uuids U⦄ ⦃o : Float64 F⦄ (pg : Postgres U E F) where
    joined-IsFound :
        (model : Text) (query : E) (hit : U × E) (rows : List (ChunkRow U E V))
        → All (λ c. IsFound rows c.chunk_id) (joined pg vault user model query key only hit rows)
    unfolding joined
    joined-IsFound model query (id, v) [] = tt
    joined-IsFound model query (id, v) (r ∷ rows) =
        let ih =
          All-map _ _ (λ (c : ChunkCandidate U F). IsFound-cons r rows c.chunk_id) _
            (joined-IsFound model query (id, v) rows) in
        joined_step (is_searched vault user key only r)
          (i.id_eq.beq r.chunk.id id && text_beq r.chunk.embedding_model_id model)
          (dense_candidate pg query v r.chunk.id)
          (joined pg vault user model query key only (id, v) rows) ih
          (λ e. (r, mem-cons_self, refl, is_searched-IsVisible r e))
      where
        joined_step :
            (searched same : Bool) (c : ChunkCandidate U F) (cs : List (ChunkCandidate U F))
            → All (λ c. IsFound (r ∷ rows) c.chunk_id) cs
            → (searched ≡ true → IsFound (r ∷ rows) c.chunk_id)
            → All (λ c. IsFound (r ∷ rows) c.chunk_id) (if searched && same then c ∷ cs else cs)
        joined_step true true c cs h f = (f refl, h)
        joined_step true false c cs h f = h
        joined_step false same c cs h f = h

    dense_hits-IsFound :
        (model : Text) (query : E) (hits : List (U × E)) (rows : List (ChunkRow U E V))
        → All
            (λ c. IsFound rows c.chunk_id)
            (dense_hits pg vault user model query key only hits rows)
    unfolding dense_hits
    dense_hits-IsFound model query [] rows = tt
    dense_hits-IsFound model query (e ∷ es) rows =
        All-append _ (joined pg vault user model query key only e rows) _
          (joined-IsFound model query e rows) (dense_hits-IsFound model query es rows)

    pub search_dense-IsFound :
        (model : Text) (query : E) (limit : ℤ) (embeddings : List (U × E))
        (rows : List (ChunkRow U E V)) {found : List (ChunkCandidate U F)}
        → search_dense pg vault user model query limit key only embeddings rows ≡ some found
        → All (λ c. IsFound rows c.chunk_id) found
    unfolding search_dense
    search_dense-IsFound model query limit embeddings rows h =
        query-All _ pg.dense_fails limit _ h
          (dense_hits-IsFound model query (pg.by_distance query embeddings) rows)
