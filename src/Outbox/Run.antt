-- ===== src/Outbox/Run.antt =====
-- src/Outbox.h against its specification: any sequence of calls runs without touching memory that
-- is no node, and does what the sequence with a cursor does.
use esp_mqtt_client.Prelude.{
  ℕ, List, [], ◌∷◌, ◌++◌, ◌≡◌, ◌≢◌, refl, subst, Option, none, some, ◌==◌, ◌>>=◌, ◌⊎◌, inl, inr,
  arith, Bool-cases, Bool, true, false, not,
}
use esp_mqtt_client.Outbox.{
  Ptr, null, Node, Outbox, emplace, emplace_front, remove_current, next_current, reset_current,
}
use esp_mqtt_client.Outbox.Repr.{Repr, Represents, represents, values-append, view}
use esp_mqtt_client.Outbox.Queue
use esp_mqtt_client.Outbox.Queue.{Queue}
use esp_mqtt_client.Outbox.Insert.{emplace-Repr, emplace-null}
use esp_mqtt_client.Outbox.InsertFront.{emplace_front-Repr, emplace_front-null}
use esp_mqtt_client.Outbox.RemoveNth.{remove_nth, remove_nth-Removed}
use esp_mqtt_client.Outbox.Remove.{remove_current-Repr, remove_current_end}
use esp_mqtt_client.Outbox.Iterate.{next_current-Repr, next_current_end, reset_current-Repr}

-- The calls of the class. A `removes` call takes an iterator from front(), steps it that many
-- times, and removes the node there.
pub data Command {ℓ} (A : Type ℓ) : Type ℓ where
  emplaces : A → Command A
  emplaces_front : A → Command A
  removes : ℕ → Command A
  removes_current : Command A
  advances : Command A
  rewinds : Command A

module _ {ℓ} {A : Type ℓ} where
  -- One call; `malloc` picks the address of a new node.
  pub call : ((Ptr → Option (Node A)) → Ptr) → Command A → Outbox A → Option (Outbox A)
  call malloc (emplaces x) o = do (o', _) ← emplace (malloc o.cell) x o; some o'
  call malloc (emplaces_front x) o = do (o', _) ← emplace_front (malloc o.cell) x o; some o'
  call malloc (removes k) o = remove_nth k o
  call malloc removes_current o = remove_current o
  call malloc advances o = next_current o
  call malloc rewinds o = some (reset_current o)

  pub run : ((Ptr → Option (Node A)) → Ptr) → List (Command A) → Outbox A → Option (Outbox A)
  run malloc [] o = some o
  run malloc (c ∷ cs) o = do o' ← call malloc c o; run malloc cs o'

  -- For each call of a run, whether malloc has memory at that moment. A run that faults has no
  -- further calls.
  pub grants : ((Ptr → Option (Node A)) → Ptr) → List (Command A) → Outbox A → List Bool
  grants malloc [] o = []
  grants malloc (c ∷ cs) o =
      not (malloc o.cell == null)
      ∷ elim (call malloc c o) [ none ↦ [] | some o' ↦ grants malloc cs o' ]

  -- What a call does to the sequence, by whether there is memory: an insertion without memory changes
  -- nothing, and one with memory takes place.
  pub data Effect : Bool → Command A → Queue A → Queue A → Type ℓ where
    stored : (x : A) (q : Queue A) → Effect true (emplaces x) q (Queue.push_back x q)
    refused : (x : A) (q : Queue A) → Effect false (emplaces x) q q
    stored_front : (x : A) (q : Queue A) → Effect true (emplaces_front x) q (Queue.push_front x q)
    refused_front : (x : A) (q : Queue A) → Effect false (emplaces_front x) q q
    removed : (g : Bool) (k : ℕ) (q : Queue A) → Effect g (removes k) q (Queue.remove_at k q)
    removed_current : (g : Bool) (q : Queue A) → Effect g removes_current q (Queue.drop_current q)
    advanced : (g : Bool) (q : Queue A) → Effect g advances q (Queue.step q)
    rewound : (g : Bool) (q : Queue A) → Effect g rewinds q (Queue.rewind q)

  pub data Effects : List Bool → List (Command A) → Queue A → Queue A → Type ℓ where
    done : (q : Queue A) → Effects [] [] q q
    then_effect :
        {g : Bool} {gs : List Bool} {c : Command A} {cs : List (Command A)} {q r t : Queue A}
        → Effect g c q r
        → Effects gs cs r t
        → Effects (g ∷ gs) (c ∷ cs) q t

  module _ (malloc : (Ptr → Option (Node A)) → Ptr) where
    abbrev pub CallRuns : Command A → Outbox A → Queue A → Type ℓ
    CallRuns c o q =
        (o' : Outbox A) × (q' : Queue A) × (call malloc c o ≡ some o')
        × Effect (not (malloc o.cell == null)) c q q'
        × Represents o' q'

    -- malloc returns null or memory that is not in use.
    abbrev pub IsMalloc : Type ℓ
    IsMalloc = (cell : Ptr → Option (Node A)) → (malloc cell ≡ null) ⊎ (cell (malloc cell) ≡ none)

    malloc_cases :
        IsMalloc
        → (cell : Ptr → Option (Node A))
        → (malloc cell ≡ null) ⊎ ((malloc cell ≢ null) × (cell (malloc cell) ≡ none))
    malloc_cases ok cell = elim (Bool-cases (malloc cell == null)) [
      | inl e ↦ inl (ground arith)
      | inr e ↦ elim (ok cell) [ inl h ↦ inl h | inr h ↦ inr (ground arith, h) ]
    ]

    emplaces_runs :
        (x : A) (o : Outbox A) (s p : List (Ptr × A))
        → IsMalloc
        → Repr o s p
        → CallRuns (emplaces x) o (view s p)
    unfolding call
    emplaces_runs x o s p ok r = elim (malloc_cases ok o.cell) [
      | inl e ↦
          let no_memory : (malloc o.cell == null) ≡ true = ground arith in
          (
            o,
            view s p,
            rw (emplace-null o x (malloc o.cell) e),
            rw no_memory (refused x _),
            represents s p r refl,
          )
      | inr (ne, unused) ↦
          let memory : (malloc o.cell == null) ≡ false = ground arith in
          let (o', it, run, r', _, _) = emplace-Repr o s p (malloc o.cell) x ne unused r in
          (
            o',
            Queue.push_back x (view s p),
            rw run,
            rw memory (stored x _),
            represents s (p ++ ((malloc o.cell, x) ∷ [])) r' (rw (values-append p)),
          )
    ]

    emplaces_front_runs :
        (x : A) (o : Outbox A) (s p : List (Ptr × A))
        → IsMalloc
        → Repr o s p
        → CallRuns (emplaces_front x) o (view s p)
    unfolding call
    emplaces_front_runs x o s p ok r = elim (malloc_cases ok o.cell) [
      | inl e ↦
          let no_memory : (malloc o.cell == null) ≡ true = ground arith in
          (
            o,
            view s p,
            rw (emplace_front-null o x (malloc o.cell) e),
            rw no_memory (refused_front x _),
            represents s p r refl,
          )
      | inr (ne, unused) ↦
          let memory : (malloc o.cell == null) ≡ false = ground arith in
          let (o', it, run, r', _) = emplace_front-Repr o s p (malloc o.cell) x ne unused r in
          (
            o',
            Queue.push_front x (view s p),
            rw run,
            rw memory (stored_front x _),
            represents [] ((malloc o.cell, x) ∷ (s ++ p)) r' (rw (values-append s)),
          )
    ]

    removes_current_runs :
        (o : Outbox A) (s p : List (Ptr × A)) → Repr o s p → CallRuns removes_current o (view s p)
    unfolding call
    removes_current_runs o s [] r =
        (o, view s [], remove_current_end o s r, removed_current _ _, represents s [] r refl)
    removes_current_runs o s ((a, x) ∷ p) r =
        let (o', run, r') = remove_current-Repr o s a x p r in
        (o', view s p, run, removed_current _ (view s ((a, x) ∷ p)), represents s p r' refl)

    advances_runs :
        (o : Outbox A) (s p : List (Ptr × A)) → Repr o s p → CallRuns advances o (view s p)
    unfolding call
    advances_runs o s [] r =
        (o, view s [], next_current_end o s r, advanced _ _, represents s [] r refl)
    advances_runs o s ((a, x) ∷ p) r =
        let (o', run, r') = next_current-Repr o s a x p r in
        (
          o',
          Queue.step (view s ((a, x) ∷ p)),
          run,
          advanced _ _,
          represents (s ++ ((a, x) ∷ [])) p r' (rw (values-append s)),
        )

    view_runs :
        (c : Command A) (o : Outbox A) (s p : List (Ptr × A))
        → IsMalloc
        → Repr o s p
        → CallRuns c o (view s p)
    unfolding call
    view_runs (emplaces x) o s p ok r = emplaces_runs x o s p ok r
    view_runs (emplaces_front x) o s p ok r = emplaces_front_runs x o s p ok r
    view_runs (removes k) o s p ok r =
        let (o', run, r') = remove_nth-Removed o s p k r in (o', _, run, removed _ k _, r')
    view_runs removes_current o s p ok r = removes_current_runs o s p r
    view_runs advances o s p ok r = advances_runs o s p r
    view_runs rewinds o s p ok r = (
      reset_current o,
      Queue.rewind (view s p),
      refl,
      rewound _ _,
      represents [] (s ++ p) (reset_current-Repr o s p r) (rw (values-append s)),
    )

    -- One call on a list that stands for a sequence touches no memory that is no node, has the effect
    -- that the specification says, and leaves a list that stands for the resulting sequence.
    pub call-Effect :
        (c : Command A) (o : Outbox A) (q : Queue A) → IsMalloc → Represents o q → CallRuns c o q
    call-Effect c o q ok r = subst (CallRuns c o) r.same (view_runs c o r.passed r.ahead ok r.repr)

    -- Any sequence of calls, started on a list that stands for a sequence with a cursor, runs
    -- without touching memory that is no node, for every malloc that returns null or unused memory. It
    -- has on the sequence the effects of the specification, one after the other: an insertion takes
    -- place exactly if malloc does not return null at that moment, and each other call does what the
    -- specification says whatever malloc returns. The list that it leaves stands for the result.
    pub run-Effects :
        (cs : List (Command A)) (o : Outbox A) (q : Queue A)
        → IsMalloc
        → Represents o q
        → (o' : Outbox A) × (q' : Queue A) × (run malloc cs o ≡ some o')
          × Effects (grants malloc cs o) cs q q'
          × Represents o' q'
    unfolding run grants
    run-Effects [] o q ok r = (o, q, refl, done q, r)
    run-Effects (c ∷ cs) o q ok r =
        let (o', q', called, effect, r') = call-Effect c o q ok r in
        let (o'', q'', ran, effects, r'') = run-Effects cs o' q' ok r' in
        (o'', q'', rw called ran, then_effect effect (rw called effects), r'')
