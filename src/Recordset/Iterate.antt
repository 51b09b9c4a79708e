-- ===== src/Recordset/Iterate.antt =====
-- A script's loop over a recordset of lib.rs, `while ($r = $rs->next())`.
use aerospike_php_client.Common.{
  ℕ, zero, suc, ◌<◌, ◌≤◌, ◌≡◌, refl, sym, subst, ap, ◌∙◌, inl, inr, List, [], ◌∷◌, Option, none,
  some, length, arith,
}
use aerospike_php_client.Errors.{Error}
use aerospike_php_client.Php.{PhpResult, returned, threw, client_error, Thrown}
use aerospike_php_client.Recordset.{
  Crate, Item, record_of, error_of, Call, Recordset, recordset_poll_min, poll, end_of_stream,
  sync_partition_filter_back, answer, next_from, next,
}
use aerospike_php_client.Recordset.Behaviour.{Delivers, Progresses}
use aerospike_php_client.Recordset.Poll.{todo-poll}
use aerospike_php_client.Recordset.Next.{
  Works, rt_call-Works, left, CursorOf, Answers, next-Answers,
}

-- The records that the loop saw, and the exception that ended it, if one did.
pub data Loop (R : Type 0) : Type 0 where
  ended : List R → Loop R
  failed : List R → Thrown → Loop R

abbrev pub saw : {R : Type 0} → R → Loop R → Loop R
saw r (ended rs) = ended (r ∷ rs)
saw r (failed rs e) = failed (r ∷ rs) e

-- What a list of records and errors is to such a loop.
abbrev pub loop_of : {R : Type 0} → List (Item R) → Loop R
loop_of [] = ended []
loop_of (record_of r ∷ items) = saw r (loop_of items)
loop_of (error_of e ∷ items) = failed [] (client_error e)

module _ (K : Crate) where
  -- One round has been made; `none` is that the fuel ran out.
  unfoldable pub round :
      (Recordset K → Option (Recordset K × Loop K.Record))
      → Option (Recordset K × PhpResult (Option K.Record))
      → Option (Recordset K × Loop K.Record)
  round more none = none
  round more (some (self, returned none)) = some (self, ended [])
  round more (some (self, threw e)) = some (self, failed [] e)
  round more (some (self, returned (some r))) = elim (more self) [
    | none ↦ none
    | some (self', l) ↦ some (self', saw r l)
  ]

  unfoldable pub read_all : ℕ → ℕ → Call → Recordset K → Option (Recordset K × Loop K.Record)
  unfolding next round
  read_all zero fuel call self = none
  read_all (suc rounds) fuel call self =
      round (read_all rounds fuel call) (next K fuel call call self)

module _ {K : Crate} (D : Delivers K) (P : Progresses K) where
  open D use {pending}

  ended_differs :
      {self self' : Recordset K} {r : K.Record} (x : Recordset K × PhpResult (Unit {0}))
      → some (end_of_stream K x) ≡ some (self', returned (some r))
      → self' ≡ self
  ended_differs (s, returned u) h = absurd (ground arith)
  ended_differs (s, threw e) h = absurd (ground arith)

  answer-kept :
      (sync : Call) (self self' : Recordset K) (r : K.Record)
      (polled : Option (Option (Item K.Record)))
      → answer K sync self (returned polled) ≡ some (self', returned (some r))
      → self' ≡ self
  unfolding answer
  answer-kept sync self self' r none h = cc
  answer-kept sync self self' r (some (some (record_of x))) h = ground arith
  answer-kept sync self self' r (some (some (error_of e))) h = ground arith
  answer-kept sync self self' r (some none) h =
      ended_differs (sync_partition_filter_back K sync self) h

  next_from-kept :
      (fuel : ℕ) (call sync : Call) (self self' : Recordset K) (s : K.Stream) (r : K.Record)
      → Works call
      → next_from K fuel call sync self (some s) ≡ some (self', returned (some r))
      → self'.stream ≡ some (poll K fuel recordset_poll_min s).0
  unfolding next_from
  next_from-kept fuel call sync self self' s r c h =
      let p = poll K fuel recordset_poll_min s in
      ap (λ x. x.stream)
        (answer-kept sync (record self { stream = some p.0 }) self' r p.1
          (subst
            (λ (q : K.Stream × PhpResult (Option (Option (Item K.Record)))).
              answer K sync (record self { stream = some q.0 }) q.1
              ≡ some (self', returned (some r)))
            (rt_call-Works call (poll K fuel recordset_poll_min) s c) h))

  next-kept :
      (fuel : ℕ) (call sync : Call) (self self' : Recordset K) (s : K.Stream) (r : K.Record)
      → Works call
      → self.stream ≡ some s
      → next K fuel call sync self ≡ some (self', returned (some r))
      → (s' : K.Stream) × (self'.stream ≡ some s') × (P.todo s' ≤ P.todo s)
  unfolding next
  next-kept fuel call sync self self' s r c q h = (
    (poll K fuel recordset_poll_min s).0,
    next_from-kept fuel call sync self self' s r c
        (sym (ap (next_from K fuel call sync self) q) ∙ h),
    todo-poll K D P fuel recordset_poll_min s (omega arith) (omega arith),
  )

  CursorOf-after :
      (self self1 self2 : Recordset K)
      → self1.cursor ≡ self.cursor
      → self1.pf_synced ≡ self.pf_synced
      → CursorOf D self1 self2
      → CursorOf D self self2
  CursorOf-after self self1 self2 c p (inl same) = inl (same ∙ c)
  CursorOf-after self self1 self2 c p (inr (s, f, n, e, g, w)) = inr (s, f, sym p ∙ n, e, g, w)

  abbrev Reads : ℕ → ℕ → Call → Recordset K → List (Item K.Record) → Type 0
  Reads rounds fuel call self items =
      (self' : Recordset K) × (read_all K rounds fuel call self ≡ some (self', loop_of items))
      × CursorOf D self self'

  step_ended :
      (rounds fuel : ℕ) (call : Call) (self self' : Recordset K) (x : PhpResult (Option K.Record))
      → next K fuel call call self ≡ some (self', x)
      → x ≡ returned none
      → CursorOf D self self'
      → Reads (suc rounds) fuel call self []
  unfolding read_all round
  step_ended rounds fuel call self self' x n e c = (self', rw (n, e) refl, c)

  step_failed :
      (rounds fuel : ℕ) (call : Call) (self self' : Recordset K) (x : PhpResult (Option K.Record))
      (e : Error) (items : List (Item K.Record))
      → next K fuel call call self ≡ some (self', x)
      → x ≡ threw (client_error e)
      → CursorOf D self self'
      → Reads (suc rounds) fuel call self (error_of e ∷ items)
  unfolding read_all round
  step_failed rounds fuel call self self' x e items n q c = (self', rw (n, q) refl, c)

  step_record :
      (rounds fuel : ℕ) (call : Call) (self self' : Recordset K) (x : PhpResult (Option K.Record))
      (r : K.Record) (items : List (Item K.Record))
      → next K fuel call call self ≡ some (self', x)
      → x ≡ returned (some r)
      → self'.cursor ≡ self.cursor
      → self'.pf_synced ≡ self.pf_synced
      → Reads rounds fuel call self' items
      → Reads (suc rounds) fuel call self (record_of r ∷ items)
  unfolding read_all round
  step_record rounds fuel call self self' x r items n q c p (self2, e, k) =
      (self2, rw (n, q, e) refl, CursorOf-after self self' self2 c p k)

  reads :
      (items : List (Item K.Record)) (rounds fuel : ℕ) (call : Call) (self : Recordset K)
      (s : K.Stream)
      → Works call
      → self.stream ≡ some s
      → pending s ≡ items
      → length items < rounds
      → P.todo s < fuel
      → Reads rounds fuel call self items
  reads items zero fuel call self s c q e l h = absurd (omega arith)
  reads [] (suc rounds) fuel call self s c q e l h =
      let a = next-Answers D P fuel call call self s c c q h in
      let b = subst (λ i. Answers D i self a.0) e a.2 in
      step_ended rounds fuel call self a.0.0 a.0.1 a.1 b.0 b.3
  reads (error_of x ∷ items) (suc rounds) fuel call self s c q e l h =
      let a = next-Answers D P fuel call call self s c c q h in
      let b = subst (λ i. Answers D i self a.0) e a.2 in
      step_failed rounds fuel call self a.0.0 a.0.1 x items a.1 b.0 (inl b.3)
  reads (record_of x ∷ items) (suc rounds) fuel call self s c q e l h =
      let a = next-Answers D P fuel call call self s c c q h in
      let b = subst (λ i. Answers D i self a.0) e a.2 in
      let k = next-kept fuel call call self a.0.0 s x c q (a.1 ∙ ap (λ y. some (a.0.0, y)) b.0) in
      step_record rounds fuel call self a.0.0 a.0.1 x items a.1 b.0 b.3 b.2 (
        reads items rounds fuel call a.0.0 k.0 c k.1 (sym (ap (left D) k.1) ∙ b.1) (omega arith)
          (omega (arith, k.2, h)))

  -- A loop over an open recordset, with a runtime and without panics, makes at most one round more than
  -- there are records and errors pending, and sees the pending records in order, none left out and none
  -- twice, up to the first error, which it is thrown. The cursor is as before, or the filter that the
  -- crate gave out when nothing was pending.
  pub read_all-loop :
      (rounds fuel : ℕ) (call : Call) (self : Recordset K) (s : K.Stream)
      → Works call
      → self.stream ≡ some s
      → length (pending s) < rounds
      → P.todo s < fuel
      → (self' : Recordset K) × (read_all K rounds fuel call self
          ≡ some (self', loop_of (pending s)))
        × CursorOf D self self'
  read_all-loop rounds fuel call self s c q l h =
      reads (pending s) rounds fuel call self s c q refl l h
