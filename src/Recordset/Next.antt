-- ===== src/Recordset/Next.antt =====
-- What `Recordset::next` of lib.rs gives, and what it does to the cursor.
use aerospike_php_client.Common.{
  ℕ, ◌<◌, ◌≡◌, refl, sym, subst, ap, ◌∙◌, ◌⊎◌, inl, inr, List, [], ◌∷◌, Option, none, some, true,
  false, if◌then◌else◌, arith, Bool-cases, Option-cases,
}
use aerospike_php_client.Php.{PhpResult, returned, threw, client_error}
use aerospike_php_client.Runtime.{Tokio}
use aerospike_php_client.Recordset.{
  Crate, Item, record_of, error_of, Call, Recordset, recordset_poll_min, rt_call, under_runtime,
  catch_panic, poll, write_back, sync_between, sync_partition_filter_back, end_of_stream, answer,
  next_from, next,
}
use aerospike_php_client.Recordset.Behaviour.{Delivers, Progresses}
use aerospike_php_client.Recordset.Poll.{Took, poll-Took}

-- The runtime is there and the call does not panic.
pub record Works (call : Call) : Type 0 where
  pub rt : Tokio
  pub there : call.runtime ≡ returned rt
  pub quiet : call.panic ≡ none

pub rt_call-Works :
    {S A : Type 0} (call : Call) (f : S → S × A) (s : S)
    → Works call
    → rt_call call f s ≡ ((f s).0, returned (f s).1)
unfolding rt_call under_runtime catch_panic
rt_call-Works call f s w = rw (w.there, w.quiet) refl

module _ {K : Crate} (D : Delivers K) where
  open D use {pending}

  abbrev pub left : Option K.Stream → List (Item K.Record)
  left none = []
  left (some s) = pending s

  -- The cursor is as it was, or is the filter that the crate gave out when nothing was pending any more.
  abbrev pub CursorOf : Recordset K → Recordset K → Type 0
  CursorOf self self' =
      (self'.cursor ≡ self.cursor)
      ⊎ ((s : K.Stream) × (f : K.Filter) × (self.pf_synced ≡ false)
          × (pending s ≡ [])
          × ((K.partition_filter s).1 ≡ some f)
          × (self'.cursor ≡ some f))

  -- What `next` answers, by what is pending.
  abbrev pub Answers :
      List (Item K.Record) → Recordset K → Recordset K × PhpResult (Option K.Record) → Type 0
  Answers [] self (self', x) =
      (x ≡ returned none)
      × (left self'.stream ≡ [])
      × (self'.pf_synced ≡ true)
      × CursorOf self self'
  Answers (record_of r ∷ rest) self (self', x) =
      (x ≡ returned (some r))
      × (left self'.stream ≡ rest)
      × (self'.pf_synced ≡ self.pf_synced)
      × (self'.cursor ≡ self.cursor)
  Answers (error_of e ∷ rest) self (self', x) =
      (x ≡ threw (client_error e))
      × (left self'.stream ≡ rest)
      × (self'.pf_synced ≡ self.pf_synced)
      × (self'.cursor ≡ self.cursor)

  write_back-Answers :
      (self : Recordset K) (old : K.Filter) (s : K.Stream)
      → self.cursor ≡ some old
      → self.pf_synced ≡ false
      → pending s ≡ []
      → Answers [] self (
          end_of_stream K
            (write_back K self old ((K.partition_filter s).0, returned (K.partition_filter s).1)))
  unfolding write_back
  write_back-Answers self old s e p l = elim (Option-cases (K.partition_filter s).1) [
    | inl nothing ↦ rw nothing (refl, D.filter_keeps s ∙ l, refl, inl (sym e))
    | inr (f, newer) ↦ rw newer (refl, D.filter_keeps s ∙ l, refl, inr (s, f, p, l, newer, refl))
  ]

  sync_between-Answers :
      (sync : Call) (self : Recordset K) (c : Option K.Filter) (o : Option K.Stream)
      → Works sync
      → self.cursor ≡ c
      → self.stream ≡ o
      → self.pf_synced ≡ false
      → left o ≡ []
      → Answers [] self (end_of_stream K (sync_between K sync self c o))
  unfolding sync_between
  sync_between-Answers sync self none o w e q p l = (refl, ap left q ∙ l, refl, inl refl)
  sync_between-Answers sync self (some old) none w e q p l = (refl, ap left q ∙ l, refl, inl refl)
  sync_between-Answers sync self (some old) (some s) w e q p l =
      rw (rt_call-Works sync K.partition_filter s w) (write_back-Answers self old s e p l)

  sync-Answers :
      (sync : Call) (self : Recordset K)
      → Works sync
      → left self.stream ≡ []
      → Answers [] self (end_of_stream K (sync_partition_filter_back K sync self))
  unfolding sync_partition_filter_back
  sync-Answers sync self w l = elim (Bool-cases self.pf_synced) [
    | inl done ↦
        subst
          (λ b. Answers [] self (
            end_of_stream K (
              if b then (self, returned tt) else sync_between K sync self self.cursor self.stream)))
          (sym done) (refl, l, done, inl refl)
    | inr open_still ↦
        subst
          (λ b. Answers [] self (
            end_of_stream K (
              if b then (self, returned tt) else sync_between K sync self self.cursor self.stream)))
          (sym open_still)
          (sync_between-Answers sync self self.cursor self.stream w refl refl open_still l)
  ]

  answer-Answers :
      (sync : Call) (self : Recordset K) (s : K.Stream) (before : List (Item K.Record))
      (polled : Option (Option (Item K.Record)))
      → Works sync
      → self.stream ≡ some s
      → Took K D before (s, polled)
      → (r : Recordset K × PhpResult (Option K.Record)) × (answer K sync self (returned polled)
          ≡ some r)
        × Answers before self r
  unfolding answer
  answer-Answers sync self s before none w q t = absurd t
  answer-Answers sync self s before (some none) w q t = (
    end_of_stream K (sync_partition_filter_back K sync self),
    refl,
    subst (λ b. Answers b self (end_of_stream K (sync_partition_filter_back K sync self))) (sym t.0)
        (sync-Answers sync self w (ap left q ∙ t.1)),
  )
  answer-Answers sync self s before (some (some (record_of x))) w q t = (
    (self, returned (some x)),
    refl,
    subst (λ b. Answers b self (self, returned (some x))) (sym t) (refl, ap left q, refl, refl),
  )
  answer-Answers sync self s before (some (some (error_of x))) w q t = (
    (self, threw (client_error x)),
    refl,
    subst (λ b. Answers b self (self, threw (client_error x))) (sym t)
        (refl, ap left q, refl, refl),
  )

  -- The PHP object with the stream as the poll left it.
  abbrev at : Recordset K → K.Stream → Recordset K
  at self s = record self { stream = some s }

  moved :
      (self : Recordset K) (s : K.Stream) (before : List (Item K.Record))
      (r : Recordset K × PhpResult (Option K.Record))
      → Answers before (at self s) r
      → Answers before self r
  moved self s [] r a = a
  moved self s (record_of x ∷ rest) r a = a
  moved self s (error_of x ∷ rest) r a = a

  module _ (P : Progresses K) where
    pub next_from-Answers :
        (fuel : ℕ) (call sync : Call) (self : Recordset K) (s : K.Stream)
        → Works call
        → Works sync
        → P.todo s < fuel
        → (r : Recordset K × PhpResult (Option K.Record)) × (next_from K fuel call sync self
              (some s)
            ≡ some r)
          × Answers (pending s) self r
    unfolding next_from
    next_from-Answers fuel call sync self s c w h =
        let p = poll K fuel recordset_poll_min s in
        let a =
          answer-Answers sync (at self p.0) p.0 (pending s) p.1 w refl
            (poll-Took K D P fuel recordset_poll_min s (omega arith) (omega arith) h) in
        rw (rt_call-Works call (poll K fuel recordset_poll_min) s c)
          (a.0, a.1, moved self p.0 (pending s) a.0 a.2)

    -- When the readers come to an end, `next` on an open recordset, with a runtime and without panics,
    -- returns after as many rounds of polling as the readers need: the first pending record, or the
    -- first pending error as an exception, and the rest stays pending; null when nothing is pending.
    -- Then, and only then, the cursor may change: to the filter that the crate gives out once nothing
    -- is pending, unless it was written before.
    pub next-Answers :
        (fuel : ℕ) (call sync : Call) (self : Recordset K) (s : K.Stream)
        → Works call
        → Works sync
        → self.stream ≡ some s
        → P.todo s < fuel
        → (r : Recordset K × PhpResult (Option K.Record)) × (next K fuel call sync self ≡ some r)
          × Answers (pending s) self r
    unfolding next
    next-Answers fuel call sync self s c w q h =
        let a = next_from-Answers fuel call sync self s c w h in
        (a.0, ap (next_from K fuel call sync self) q ∙ a.1, a.2)
