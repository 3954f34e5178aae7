-- ===== src/Store/Effects.antt =====
-- internal/store/store.go: what a run of statements does to the rows of memory_chunks, with rules
-- that go through a handler step by step.
use ghost_vault.Prelude.{
  ℕ, ◌+◌, ◌≡◌, refl, sym, ap, ◌∙◌, Bool, false, List, [], ◌∷◌, ◌++◌, All, All-append, append_assoc,
  arith, Bool-cases, inl, inr, ◌⊎◌,
}
use ghost_vault.Outcome.{Error, Result, ok, err}
use ghost_vault.Outcome.Action.{Action, continue, ◌>>=◌, pure, fail, lift}
use ghost_vault.Store.Tables.{
  Db, ChunkInsert, ChunkRow, exec, transaction, rolled_back, insert_chunk,
}

abbrev pub IsErr : {A : Type 0} → Result A → Type 0
IsErr (ok a) = ⊥
IsErr (err x) = Unit

module _ {U E V : Type 0} where
  abbrev pub live : ChunkInsert U E V → ChunkRow U E V
  live c = record { chunk = c; deleted = false }

  -- The rows stay as they are, and a result that is returned satisfies the predicate.
  pub record Gives {A : Type 0} (Q : A → Type 0) (m : Action (Db U E V) A) : Type 0 where
    pub same : (db : Db U E V) → (m db).1.chunks ≡ db.chunks
    pub gives : (db : Db U E V) (a : A) → (m db).0 ≡ ok a → Q a

  pub record IsQuiet {A : Type 0} (m : Action (Db U E V) A) : Type 0 where
    pub same : (db : Db U E V) → (m db).1.chunks ≡ db.chunks

  -- The rows after are those before, which takes a failure, or have one new live row, which
  -- satisfies the predicate.
  pub data Grew (P : ChunkInsert U E V → Type 0) (Failed : Type 0)
      (before after : List (ChunkRow U E V)) : Type 0 where
    kept : Failed → after ≡ before → Grew P Failed before after
    grew : (c : ChunkInsert U E V) → P c → after ≡ live c ∷ before → Grew P Failed before after

  pub record AddsOne {A : Type 0} (P : ChunkInsert U E V → Type 0) (m : Action (Db U E V) A)
      : Type 0 where
    pub run : (db : Db U E V) → Grew P (IsErr (m db).0) db.chunks (m db).1.chunks

  abbrev pub IsLive : (ChunkInsert U E V → Type 0) → ChunkRow U E V → Type 0
  IsLive P r = P r.chunk × (r.deleted ≡ false)

  -- The rows after are those before with new live rows on top, which all satisfy the predicate.
  abbrev pub Appended :
      (ChunkInsert U E V → Type 0) → List (ChunkRow U E V) → List (ChunkRow U E V) → Type 0
  Appended P before after =
      (new : List (ChunkRow U E V)) × (after ≡ new ++ before) × All (IsLive P) new

  pub record Adds {A : Type 0} (P : ChunkInsert U E V → Type 0) (m : Action (Db U E V) A)
      : Type 0 where
    pub run : (db : Db U E V) → Appended P db.chunks (m db).1.chunks

  module _ {A B : Type 0} {m : Action (Db U E V) A} {f : A → Action (Db U E V) B} where
    pub Gives->>= :
        {P : ChunkInsert U E V → Type 0} {Q : A → Type 0}
        → Gives Q m
        → ((a : A) → Q a → AddsOne P (f a))
        → AddsOne P (m >>= f)
    unfolding ◌>>=◌
    Gives->>= {P} {Q} g h = record { run = λ db. go db (m db) (g.same db) (g.gives db) }
      where
        go :
            (db : Db U E V) (p : Result A × Db U E V)
            → p.1.chunks ≡ db.chunks
            → ((a : A) → p.0 ≡ ok a → Q a)
            → Grew P (IsErr (continue p.0 f p.1).0) db.chunks (continue p.0 f p.1).1.chunks
        go db (err x, db') same q = kept tt same
        go db (ok a, db') same q = rw (← same) ((h a (q a refl)).run db')

    pub AddsOne->>= :
        {P : ChunkInsert U E V → Type 0}
        → AddsOne P m
        → ((a : A) → IsQuiet (f a))
        → AddsOne P (m >>= f)
    unfolding ◌>>=◌
    AddsOne->>= {P} g h = record { run = λ db. go db (m db) (g.run db) }
      where
        go :
            (db : Db U E V) (p : Result A × Db U E V)
            → Grew P (IsErr p.0) db.chunks p.1.chunks
            → Grew P (IsErr (continue p.0 f p.1).0) db.chunks (continue p.0 f p.1).1.chunks
        go db (err x, db') c = c
        go db (ok a, db') (kept bad e) = absurd bad
        go db (ok a, db') (grew c p e) = grew c p ((h a).same db' ∙ e)

    pub Adds->>= :
        {P : ChunkInsert U E V → Type 0} → Adds P m → ((a : A) → Adds P (f a)) → Adds P (m >>= f)
    unfolding ◌>>=◌
    Adds->>= {P} g h = record { run = λ db. go db (m db) (g.run db) }
      where
        go :
            (db : Db U E V) (p : Result A × Db U E V)
            → Appended P db.chunks p.1.chunks
            → Appended P db.chunks (continue p.0 f p.1).1.chunks
        go db (err x, db') c = c
        go db (ok a, db') (old, e, all_old) =
            let (new, e', all_new) = (h a).run db' in
            (
              new ++ old,
              e' ∙ ap (λ rs. new ++ rs) e ∙ sym (append_assoc new old db.chunks),
              All-append (IsLive P) new old all_new all_old,
            )

    pub IsQuiet->>= : IsQuiet m → ((a : A) → IsQuiet (f a)) → IsQuiet (m >>= f)
    unfolding ◌>>=◌
    IsQuiet->>= g h = record { same = λ db. go db (m db) (g.same db) }
      where
        go :
            (db : Db U E V) (p : Result A × Db U E V)
            → p.1.chunks ≡ db.chunks
            → (continue p.0 f p.1).1.chunks ≡ db.chunks
        go db (err x, db') same = same
        go db (ok a, db') same = (h a).same db' ∙ same

    -- A quiet step first, then one that may write.
    pub IsQuiet->>=-AddsOne :
        {P : ChunkInsert U E V → Type 0}
        → IsQuiet m
        → ((a : A) → AddsOne P (f a))
        → AddsOne P (m >>= f)
    IsQuiet->>=-AddsOne {P} g h =
        Gives->>= {Q = λ _. Unit {0}} (record { same = g.same; gives = λ _ _ _. tt }) (λ a _. h a)

  module _ {A : Type 0} where
    pub pure-IsQuiet : {a : A} → IsQuiet (pure {S = Db U E V} a)
    pure-IsQuiet = record { same = λ db. refl }

    pub fail-IsQuiet : {x : Error} → IsQuiet (fail {S = Db U E V} {A = A} x)
    fail-IsQuiet = record { same = λ db. refl }

    pub lift-IsQuiet : {r : Result A} → IsQuiet (lift {S = Db U E V} r)
    lift-IsQuiet = record { same = λ db. refl }

  module _ {A : Type 0} {m : Action (Db U E V) A} where
    pub IsQuiet-Gives : {Q : A → Type 0} → Gives Q m → IsQuiet m
    IsQuiet-Gives g = record { same = g.same }

    pub IsQuiet-Adds : {P : ChunkInsert U E V → Type 0} → IsQuiet m → Adds P m
    IsQuiet-Adds g = record { run = λ db. ([], g.same db, tt) }

    pub AddsOne-Adds : {P : ChunkInsert U E V → Type 0} → AddsOne P m → Adds P m
    AddsOne-Adds {P} g = record { run = λ db. go (g.run db) }
      where
        go :
            {Failed : Type 0} {before after : List (ChunkRow U E V)}
            → Grew P Failed before after
            → Appended P before after
        go (kept f e) = ([], e, tt)
        go (grew c p e) = (live c ∷ [], e, ((p, refl), tt))

    pub exec-IsQuiet : (fails : ℕ → Bool) → IsQuiet m → IsQuiet (exec fails m)
    unfolding exec
    exec-IsQuiet fails g = record { same = go }
      where
        go : (db : Db U E V) → (exec fails m db).1.chunks ≡ db.chunks
        go db = elim (Bool-cases (fails db.calls)) [
          | inl e ↦ rw e refl
          | inr e ↦ rw e (g.same (record db { calls = db.calls + 1 }))
        ]

  abbrev pub Inserted : ChunkInsert U E V → Db U E V → Db U E V → Type 0
  Inserted c db db' =
      (db'.chunks ≡ live c ∷ db.chunks)
      × (db'.embeddings ≡ (c.id, c.embedding) ∷ db.embeddings)
      × (db'.history ≡ (c.vault_id, c.id) ∷ db.history)

  abbrev pub Untouched : Db U E V → Db U E V → Type 0
  Untouched db db' =
      (db'.chunks ≡ db.chunks) × (db'.embeddings ≡ db.embeddings) × (db'.history ≡ db.history)

  -- Inserting a chunk writes its row, its embedding and its history entry, or, after an error of
  -- any statement, leaves the three tables as they were.
  pub insert_chunk-atomic :
      (fails : ℕ → Bool) (c : ChunkInsert U E V) (db : Db U E V)
      → ((insert_chunk fails c db).0 ≡ ok tt × Inserted c db (insert_chunk fails c db).1)
        ⊎ ((x : Error) × ((insert_chunk fails c db).0 ≡ err x)
            × Untouched db (insert_chunk fails c db).1)
  unfolding insert_chunk transaction exec rolled_back ◌>>=◌
  insert_chunk-atomic fails c db = ground arith

  pub insert_chunk-AddsOne :
      (fails : ℕ → Bool) (P : ChunkInsert U E V → Type 0) (c : ChunkInsert U E V)
      → P c
      → AddsOne P (insert_chunk fails c)
  insert_chunk-AddsOne fails P c p = record { run = λ db. go db (insert_chunk-atomic fails c db) }
    where
      go :
          (db : Db U E V)
          → ((insert_chunk fails c db).0 ≡ ok tt × Inserted c db (insert_chunk fails c db).1)
            ⊎ ((x : Error) × ((insert_chunk fails c db).0 ≡ err x)
                × Untouched db (insert_chunk fails c db).1)
          → Grew P (IsErr (insert_chunk fails c db).0) db.chunks (insert_chunk fails c db).1.chunks
      go db (inl (done, (e, _, _))) = grew c p e
      go db (inr (x, failed, (e, _, _))) = kept (rw failed tt) e
