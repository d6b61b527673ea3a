-- ===== src/Writer/Exec/Rounds.antt =====
-- pkg/wal/processor/postgres/postgres_batch_writer.go: what a round of a flush does to the database.
use pgstream.Prelude.{
  ℕ, suc, ◌≡◌, ◌⊎◌, inl, inr, refl, sym, ap, ◌∙◌, Bool, true, false, none, some, List, [], ◌∷◌,
  ◌++◌, map, length, length-append, append_assoc, append-nil, arith, Bool-cases, Option-cases,
  if◌then◌else◌,
}
use pgstream.Postgres.Errors.{RawError, Error, unmapped, map_error}
use pgstream.Postgres.Pool.{Connection, Ended, exec_in_tx, begun, finish, committing}
use pgstream.Writer.Query.{Query}
use pgstream.Writer.Exec.{
  Statement, role_replica, role_default, statement_of, is_internal_error, remove_index, mapped,
  set_role, reset, refused, exec_each, with_role, run_queries, settled, exec_queries,
}

remove_index-append {ℓ} :
    {A : Type ℓ} (xs : List A) (q : A) (ys : List A)
    → remove_index (xs ++ q ∷ ys) (length xs) ≡ xs ++ ys
unfolding remove_index
remove_index-append [] q ys = refl
remove_index-append (x ∷ xs) q ys = ap (λ zs. x ∷ zs) (remove_index-append xs q ys)

module _ (conn : Connection Statement) (disable_triggers : Bool) where
  open conn use {State, begin, exec, commit, rollback, committed, pending}

  -- The database has refused the query, with an error that is not internal.
  abbrev pub Refused : Query → Type 0
  Refused q =
      (s : State) × (e : RawError) × ((exec s (statement_of q)).1 ≡ some e)
      × (is_internal_error (map_error e) ≡ false)

  -- `kept` are the queries, in order, without some that the database has refused.
  pub data Kept : List Query → List Query → Type 0 where
    nothing : Kept [] []
    keep_query :
        {queries kept : List Query} (q : Query) → Kept queries kept → Kept (q ∷ queries) (q ∷ kept)
    drop_query :
        {queries kept : List Query} (q : Query)
        → Refused q
        → Kept queries kept
        → Kept (q ∷ queries) kept

  abbrev pub role_part : Statement → List Statement
  role_part role = if disable_triggers then role ∷ [] else []

  -- The statements of a transaction of these queries.
  abbrev pub transaction : List Query → List Statement
  transaction queries =
      role_part role_replica ++ (map statement_of queries ++ role_part role_default)

  -- Starting a transaction and setting the replication role fail with internal errors only.
  pub record Steady : Type 0 where
    pub begin_internal :
        (s : State) (e : RawError) → (begin s).1 ≡ some e → is_internal_error (map_error e) ≡ true
    pub replica_internal :
        (s : State) (e : RawError)
        → (exec s role_replica).1 ≡ some e
        → is_internal_error (map_error e) ≡ true
    pub default_internal :
        (s : State) (e : RawError)
        → (exec s role_default).1 ≡ some e
        → is_internal_error (map_error e) ≡ true

  pub Kept-all : (queries : List Query) → Kept queries queries
  Kept-all [] = nothing
  Kept-all (q ∷ queries) = keep_query q (Kept-all queries)

  pub Kept-insert :
      (before : List Query) (q : Query) (after kept : List Query)
      → Refused q
      → Kept (before ++ after) kept
      → Kept (before ++ q ∷ after) kept
  Kept-insert [] q after kept r k = drop_query q r k
  Kept-insert (b ∷ before) q after (_ ∷ kept) r (keep_query _ k) =
      keep_query b (Kept-insert before q after kept r k)
  Kept-insert (b ∷ before) q after kept r (drop_query _ r' k) =
      drop_query b r' (Kept-insert before q after kept r k)

  pub committed-set_role :
      (role : Statement) (s : State)
      → committed (set_role conn disable_triggers role s).0 ≡ committed s
  unfolding set_role
  committed-set_role role s = ground (arith, conn.committed-exec s role)

  pub pending-set_role :
      (role : Statement) (s : State)
      → (set_role conn disable_triggers role s).1 ≡ none
      → pending (set_role conn disable_triggers role s).0 ≡ pending s ++ role_part role
  unfolding set_role mapped
  pending-set_role role s e = elim (Bool-cases disable_triggers) [
    | inl d ↦ elim (Option-cases (exec s role).1) [
      | inl n ↦ rw d (conn.pending-exec s role n)
      | inr (x, n) ↦ let bad : some (map_error x) ≡ none = simp (d, n) at e in absurd (cc)
    ]
    | inr d ↦ rw (d, append-nil (pending s))
  ]

  error-set_role :
      (role : Statement) (s : State) (e : Error)
      → ((s : State) (x : RawError)
          → (exec s role).1 ≡ some x
          → is_internal_error (map_error x) ≡ true)
      → (set_role conn disable_triggers role s).1 ≡ some e
      → is_internal_error e ≡ true
  unfolding set_role mapped
  error-set_role role s e h q = elim (Bool-cases disable_triggers) [
    | inl d ↦ elim (Option-cases (exec s role).1) [
      | inl n ↦ let bad : none ≡ some e = simp (d, n) at q in absurd (cc)
      | inr (x, n) ↦
          let same : some (map_error x) ≡ some e = simp (d, n) at q in
          let same' : map_error x ≡ e = cc in rw (← same') (h s x n)
    ]
    | inr d ↦ let bad : none ≡ some e = simp d at q in absurd (cc)
  ]

  -- One of the queries is refused and left out.
  pub record Drops (queries left : List Query) : Type 0 where
    pub before : List Query
    pub query : Query
    pub after : List Query
    pub whole : queries ≡ before ++ query ∷ after
    pub without : left ≡ before ++ after
    pub refusal : Refused query

  -- What the loop over the queries does.
  record Each (queries rest : List Query) (s : State) (r : Ended State (List Query)) : Type 0 where
    untouched : committed r.after ≡ committed s
    all :
        r.error ≡ none
        → (r.assigned ≡ [])
          × (pending r.after ≡ pending s ++ (map statement_of rest ++ role_part role_default))
    one : (e : Error) → r.error ≡ some e → (is_internal_error e ≡ true) ⊎ Drops queries r.assigned

  module _ (steady : Steady) where
    reset-Each :
        (queries : List Query) (s : State) → Each queries [] s (reset conn disable_triggers s)
    unfolding reset
    reset-Each queries s = record {
      untouched = committed-set_role role_default s;
      all = λ e. (refl, pending-set_role role_default s e);
      one = λ e q. inl (error-set_role role_default s e steady.default_internal q);
    }

    exec_each-Each :
        (queries before rest : List Query) (i : ℕ) (s : State)
        → queries ≡ before ++ rest
        → i ≡ length before
        → Each queries rest s (exec_each conn disable_triggers queries i rest s)
    unfolding exec_each refused
    exec_each-Each queries before [] i s e h = reset-Each queries s
    exec_each-Each queries before (q ∷ rest) i s e h =
        elim (Option-cases (exec s (statement_of q)).1) [
          | inl n ↦
              let s' = (exec s (statement_of q)).0 in
              let r =
                exec_each-Each queries (before ++ q ∷ []) rest (suc i) s'
                  (e ∙ sym (append_assoc before (q ∷ []) rest))
                  (ap suc h ∙ sym (length-append before (q ∷ []) ∙ omega arith)) in
              let done = conn.pending-exec s (statement_of q) n in
              rw (n, exec_each)
                (record {
                  untouched = r.untouched ∙ conn.committed-exec s (statement_of q);
                  all = λ x. (
                    (r.all x).0,
                    (r.all x).1
                        ∙ ap (λ u. u ++ (map statement_of rest ++ role_part role_default)) done
                        ∙ append_assoc (pending s) (statement_of q ∷ [])
                            (map statement_of rest ++ role_part role_default),
                  );
                  one = r.one;
                })
          | inr (x, n) ↦
              rw (n, exec_each)
                (record {
                  untouched = conn.committed-exec s (statement_of q);
                  all = λ y. absurd (cc);
                  one = λ y z. elim (Bool-cases (is_internal_error (map_error x))) [
                    | inl b ↦ let same : y ≡ map_error x = cc in inl (rw same b)
                    | inr b ↦ inr (record {
                      before = before;
                      query = q;
                      after = rest;
                      whole = e;
                      without = rw (e, h) (remove_index-append before q rest);
                      refusal = (s, x, n, b);
                    })
                  ];
                })
        ]

    run_queries-Each :
        (queries : List Query) (s : State)
        → (pending s ≡ [])
        → let r = run_queries conn disable_triggers queries s in
          (committed r.after ≡ committed s)
          × (r.error ≡ none → (r.assigned ≡ []) × (pending r.after ≡ transaction queries))
          × ((e : Error)
              → r.error ≡ some e
              → (is_internal_error e ≡ true) ⊎ Drops queries r.assigned)
    unfolding run_queries with_role
    run_queries-Each queries s p =
        elim (Option-cases (set_role conn disable_triggers role_replica s).1) [
          | inl n ↦
              let s' = (set_role conn disable_triggers role_replica s).0 in
              let h = exec_each-Each queries [] queries 0 s' refl refl in
              let role = pending-set_role role_replica s n in
              rw (n, with_role)
                (
                  h.untouched ∙ committed-set_role role_replica s,
                  (λ x. (
                    (h.all x).0,
                    (h.all x).1
                        ∙ ap (λ u. u ++ (map statement_of queries ++ role_part role_default))
                            (role ∙ ap (λ u. u ++ role_part role_replica) p),
                  )),
                  h.one,
                )
          | inr (x, n) ↦
              rw (n, with_role)
                (
                  committed-set_role role_replica s,
                  (λ y. absurd (cc)),
                  (λ y z. inl (error-set_role role_replica s y steady.replica_internal (n ∙ z))),
                )
        ]

    -- A Commit has returned the error.
    abbrev pub CommitFails : RawError → Type 0
    CommitFails e = (s : State) × ((commit s).1 ≡ some e)

    -- A round writes all queries, leaves one out that the database refuses, or ends the flush, not knowing what is
    -- written if Commit has failed.
    pub data Round (queries : List Query) (s : State) (r : Ended State (List Query)) : Type 0 where
      written :
          r.error ≡ none
          → r.assigned ≡ []
          → committed r.after ≡ committed s ++ transaction queries
          → Round queries s r
      dropped :
          r.error ≡ none
          → Drops queries r.assigned
          → committed r.after ≡ committed s
          → Round queries s r
      ended : (e : Error) → r.error ≡ some e → committed r.after ≡ committed s → Round queries s r
      -- Commit has returned an error, and the server has written everything.
      in_doubt :
          (e : RawError)
          → CommitFails e
          → r.error ≡ some (unmapped e)
          → committed r.after ≡ committed s ++ transaction queries
          → Round queries s r

    pub exec_queries-Round :
        (queries : List Query) (s : State)
        → Round queries s (exec_queries conn disable_triggers s queries)
    unfolding exec_queries exec_in_tx begun finish committing settled is_internal_error
    exec_queries-Round queries s =
        let s' = (begin s).0 in
        let start = conn.committed-begin s in
        let r = run_queries conn disable_triggers queries s' in
        elim (Option-cases (begin s).1) [
          | inr (x, n) ↦
              simp (n, begun, settled, steady.begin_internal s x n) (ended (map_error x) refl start)
          | inl n ↦
              let (same, all, one) = run_queries-Each queries s' (conn.pending-begin s n) in
              elim (Option-cases r.error) [
                | inl m ↦ elim (Option-cases (commit r.after).1) [
                  | inl c ↦
                      simp (n, begun, m, finish, c, committing, settled)
                        (written refl (all m).0 (
                          conn.committed-commit r.after c
                          ∙ ap (λ u. u ++ pending r.after) (same ∙ start)
                          ∙ ap (λ u. committed s ++ u) (all m).1))
                  | inr (x, c) ↦ elim (conn.committed-commit_failed r.after x c) [
                    | inl k ↦
                        simp (n, begun, m, finish, c, committing, settled)
                          (ended (unmapped x) refl (k ∙ same ∙ start))
                    | inr w ↦
                        simp (n, begun, m, finish, c, committing, settled)
                          (in_doubt x (r.after, c) refl
                            (w
                              ∙ ap (λ u. u ++ pending r.after) (same ∙ start)
                              ∙ ap (λ u. committed s ++ u) (all m).1))
                  ]
                ]
                | inr (x, m) ↦ elim (Bool-cases (is_internal_error x)) [
                  | inl b ↦
                      simp (n, begun, m, finish, b, settled)
                        (ended x refl (conn.committed-rollback r.after ∙ same ∙ start))
                  | inr b ↦ elim (one x m) [
                    | inl b' ↦ absurd (cc)
                    | inr d ↦
                        simp (n, begun, m, finish, b, settled)
                          (dropped refl d (conn.committed-rollback r.after ∙ same ∙ start))
                  ]
                ]
              ]
        ]
