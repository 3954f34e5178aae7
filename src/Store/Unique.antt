-- ===== src/Store/Unique.antt =====
-- internal/store/store.go: the rule that ChunkExistsHash is there for, one live row for each hash of a
-- vault's user, which no index of the database states, and the writes that keep it.
use ghost_vault.Prelude.{
  ℕ, ◌≡◌, refl, Bool, true, false, List, [], ◌∷◌, All-map, arith, Bool-cases, inl, inr, ◌⊎◌, ◌+◌,
  beq_refl,
}
use mathlib.Core.Path.{subst}
use ghost_vault.Text.{Text, text_eq}
use ghost_vault.Extern.{Uuids, eq_of_uuids}
use ghost_vault.Outcome.{Result, ok, err}
use ghost_vault.Outcome.Action.{Action, continue, ◌>>=◌}
use ghost_vault.Store.Tables.{Db, ChunkInsert, ChunkRow, exec, chunk_exists_hash, has_live_hash}
use ghost_vault.Store.Effects.{
  IsErr, IsQuiet, Grew, kept, grew, AddsOne, IsLive, Appended, Adds, Adds->>=, IsQuiet-Adds,
  AddsOne-Adds,
}

module _ {U E V : Type 0} ⦃i : Uuids U⦄ where
  -- No two live rows have the same vault, user and hash.
  abbrev pub IsUnique : List (ChunkRow U E V) → Type 0
  IsUnique [] = Unit
  IsUnique (r ∷ rs) =
      ((r.deleted ≡ true)
        ⊎ (has_live_hash r.chunk.vault_id r.chunk.user_id r.chunk.content_sha256 rs ≡ false))
      × IsUnique rs

  -- The action appends rows that satisfy the predicate, and keeps the rows unique.
  pub record Stores {A : Type 0} (P : ChunkInsert U E V → Type 0) (m : Action (Db U E V) A)
      : Type 0 where
    pub adds : Adds P m
    pub unique : (db : Db U E V) → IsUnique db.chunks → IsUnique (m db).1.chunks

  module _ {A B : Type 0} {m : Action (Db U E V) A} {f : A → Action (Db U E V) B} where
    pub Stores->>= :
        {P : ChunkInsert U E V → Type 0}
        → Stores P m
        → ((a : A) → Stores P (f a))
        → Stores P (m >>= f)
    unfolding ◌>>=◌
    Stores->>= g h = record {
      adds = Adds->>= g.adds (λ a. (h a).adds);
      unique = λ db u. go (m db) (g.unique db u);
    }
      where
        go :
            (p : Result A × Db U E V) → IsUnique p.1.chunks → IsUnique (continue p.0 f p.1).1.chunks
        go (err x, db') u = u
        go (ok a, db') u = (h a).unique db' u

  module _ {A : Type 0} {m : Action (Db U E V) A} where
    pub IsQuiet-Stores : {P : ChunkInsert U E V → Type 0} → IsQuiet m → Stores P m
    IsQuiet-Stores g = record { adds = IsQuiet-Adds g; unique = λ db u. rw (g.same db) u }

  module _ (vault : U) (user : Text) (hash : List ℕ) where
    abbrev Has : ChunkInsert U E V → Type 0
    Has c = (c.vault_id ≡ vault) × (c.user_id ≡ user) × (c.content_sha256 ≡ hash)

    Grew-IsUnique :
        {P : ChunkInsert U E V → Type 0} {Failed : Type 0} {before after : List (ChunkRow U E V)}
        → ((c : ChunkInsert U E V) → P c → Has c)
        → has_live_hash vault user hash before ≡ false
        → IsUnique before
        → Grew P Failed before after
        → IsUnique after
    Grew-IsUnique has new u (kept f e) = rw e u
    Grew-IsUnique has new u (grew c p e) =
        let (v, s, h) = has c p in rw e (inr (rw (v, s, h) new), u)

    -- An insertion behind the test that no live row has its hash.
    pub guarded-Stores :
        {A : Type 0} {P : ChunkInsert U E V → Type 0} (fails : ℕ → Bool)
        (f : Bool → Action (Db U E V) A)
        → ((c : ChunkInsert U E V) → P c → Has c)
        → IsQuiet (f true)
        → AddsOne P (f false)
        → Stores P (chunk_exists_hash fails vault user hash >>= f)
    unfolding ◌>>=◌ chunk_exists_hash exec
    guarded-Stores {P = P} fails f has skip add = record {
      adds = Adds->>= (IsQuiet-Adds (record { same = λ db. ground arith })) adds_either;
      unique = λ db u. elim (Bool-cases (fails db.calls)) [
        | inl e ↦ rw e u
        | inr e ↦ elim (Bool-cases (has_live_hash vault user hash db.chunks)) [
          | inl known ↦ rw (e, known, skip.same) u
          | inr new ↦ rw (e, new) (Grew-IsUnique has new u (add.run _))
        ]
      ];
    }
      where
        adds_either : (b : Bool) → Adds P (f b)
        adds_either true = IsQuiet-Adds skip
        adds_either false = AddsOne-Adds add

    live-Grew :
        {P : ChunkInsert U E V → Type 0} {before after : List (ChunkRow U E V)}
        → ((c : ChunkInsert U E V) → P c → Has c)
        → Grew P ⊥ before after
        → has_live_hash vault user hash after ≡ true
    unfolding has_live_hash
    live-Grew has (kept f e) = absurd f
    live-Grew has (grew c p e) =
        let (v, s, h) = has c p in
        rw (e, v, s, h, beq_refl vault, beq_refl ⦃e = text_eq⦄ user, beq_refl ⦃e = text_eq⦄ hash)
          refl

    -- After the guarded insertion succeeded, a live row has the hash.
    pub guarded-live :
        {A : Type 0} {P : ChunkInsert U E V → Type 0} (fails : ℕ → Bool)
        (f : Bool → Action (Db U E V) A)
        → ((c : ChunkInsert U E V) → P c → Has c)
        → IsQuiet (f true)
        → AddsOne P (f false)
        → (db : Db U E V) {a : A} → ((chunk_exists_hash fails vault user hash >>= f) db).0 ≡ ok a
        → has_live_hash vault user hash
            ((chunk_exists_hash fails vault user hash >>= f) db).1.chunks
          ≡ true
    unfolding ◌>>=◌ chunk_exists_hash exec
    guarded-live {P = P} fails f has skip add db {a} = elim (Bool-cases (fails db.calls)) [
      | inl e ↦ rw e (λ h. absurd (cc h))
      | inr e ↦
          let db' = record db { calls = db.calls + 1 } in
          elim (Bool-cases (has_live_hash vault user hash db.chunks)) [
            | inl known ↦ rw (e, known) (λ h. rw (skip.same db') known)
            | inr new ↦
                rw (e, new)
                  (λ h. live-Grew has (
                    subst (λ r. Grew P (IsErr r) db.chunks (f false db').1.chunks) h (add.run db')))
          ]
    ]

  pub mono-Stores :
      {A : Type 0} {P Q : ChunkInsert U E V → Type 0} {m : Action (Db U E V) A}
      → ((c : ChunkInsert U E V) → P c → Q c)
      → Stores P m
      → Stores Q m
  mono-Stores {P = P} {Q = Q} {m = m} f g = record {
    adds = record { run = λ db. go (g.adds.run db) };
    unique = g.unique;
  }
    where
      go :
          {before after : List (ChunkRow U E V)} → Appended P before after → Appended Q before after
      go (new, e, all) =
          (new, e, All-map (IsLive P) (IsLive Q) (λ r (p, l). (f r.chunk p, l)) new all)
