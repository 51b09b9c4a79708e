-- ===== src/Recordset/Poll.antt =====
-- The polling loop of `Recordset::next` of lib.rs ends, with the first record that is pending.
use aerospike_php_client.Common.{
  ℕ, zero, suc, ◌*◌, ◌<◌, ◌≤◌, ◌≡◌, subst, ◌∙◌, inl, inr, List, [], ◌∷◌, Option, none, some, false,
  ◌&&◌, not, arith, Bool-cases, Option-cases, min,
}
use aerospike_php_client.Recordset.{
  Crate, Item, recordset_poll_min, recordset_poll_max, recordset_readers_finished,
  recordset_backoff, poll,
}
use aerospike_php_client.Recordset.Behaviour.{Delivers, Progresses}

module _ (K : Crate) (D : Delivers K) where
  open D use {pending}

  -- The head of what is pending was taken, or nothing was pending.
  abbrev pub Took : List (Item K.Record) → K.Stream × Option (Option (Item K.Record)) → Type 0
  Took before (s, none) = ⊥
  Took before (s, some none) = (before ≡ []) × (pending s ≡ [])
  Took before (s, some (some r)) = before ≡ r ∷ pending s

  last_Took :
      (s : K.Stream)
      → K.is_active s ≡ false
      → K.strong_count s ≡ 1
      → Took (pending s) ((K.next_record s).0, some (K.next_record s).1)
  last_Took s inactive alone = elim (Option-cases (K.next_record s).1) [
    | inl e ↦
        let empty : pending s ≡ [] = D.settled s inactive alone e in
        rw e (empty, D.none_next s e ∙ empty)
    | inr (r, e) ↦ rw e (D.some_next s r e)
  ]

  module _ (P : Progresses K) where
    pub poll-Took :
        (fuel backoff : ℕ) (s : K.Stream)
        → recordset_poll_min ≤ backoff
        → backoff ≤ recordset_poll_max
        → P.todo s < fuel
        → Took (pending s) (poll K fuel backoff s)
    unfolding poll recordset_readers_finished recordset_backoff
    poll-Took zero backoff s lo hi h = absurd (omega (arith, h))
    poll-Took (suc fuel) backoff s lo hi h =
        let s2 = K.meanwhile (K.next_record s).0 in
        elim (Option-cases (K.next_record s).1) [
          | inr (r, e) ↦ rw (e, poll) (D.some_next s r e)
          | inl e ↦
              let same : pending s2 ≡ pending s =
                D.meanwhile_keeps (K.next_record s).0 ∙ D.none_next s e in
              elim (Bool-cases (not (K.is_active s2) && recordset_readers_finished K s2)) [
                | inl over ↦
                    rw (e, over, poll)
                      (subst (λ b. Took b ((K.next_record s2).0, some (K.next_record s2).1)) same
                        (last_Took s2 (ground arith) (ground arith)))
                | inr more ↦
                    rw (e, more, poll)
                      (subst
                        (λ b. Took b (
                          poll K fuel (min (backoff * 2) recordset_poll_max) (K.asleep backoff s2)))
                        (D.asleep_keeps backoff s2 ∙ same)
                        (poll-Took fuel (min (backoff * 2) recordset_poll_max) (K.asleep backoff s2)
                          (ground arith) (ground arith)
                          (omega (arith, P.progress backoff s lo hi e more, h))))
              ]
        ]

    -- A poll leaves the readers no more to do.
    pub todo-poll :
        (fuel backoff : ℕ) (s : K.Stream)
        → recordset_poll_min ≤ backoff
        → backoff ≤ recordset_poll_max
        → P.todo (poll K fuel backoff s).0 ≤ P.todo s
    unfolding poll recordset_readers_finished recordset_backoff
    todo-poll zero backoff s lo hi = omega arith
    todo-poll (suc fuel) backoff s lo hi =
        let s2 = K.meanwhile (K.next_record s).0 in
        let less : P.todo s2 ≤ P.todo s =
          omega (arith, P.meanwhile_less (K.next_record s).0, P.next_less s) in
        elim (Option-cases (K.next_record s).1) [
          | inr (r, e) ↦ rw (e, poll) (P.next_less s)
          | inl e ↦ elim (Bool-cases (not (K.is_active s2) && recordset_readers_finished K s2)) [
            | inl over ↦ rw (e, over, poll) (omega (arith, P.next_less s2, less))
            | inr more ↦
                rw (e, more, poll)
                  (omega (
                    arith,
                    P.progress backoff s lo hi e more,
                    todo-poll fuel (min (backoff * 2) recordset_poll_max) (K.asleep backoff s2)
                        (ground arith) (ground arith),
                  ))
          ]
        ]
