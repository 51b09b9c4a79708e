-- ===== src/Recordset/Drain.antt =====
-- How an abandoned stream of lib.rs ends: the background task of `drain_recordset`.
use aerospike_php_client.Common.{
  ℕ, zero, suc, ◌+◌, ◌*◌, ◌-◌, ◌<◌, ◌≤◌, ◌≡◌, ap, ◌∙◌, inl, inr, Option, none, some, false, length,
  leb, arith, Bool-cases, Option-cases,
}
use aerospike_php_client.Recordset.{
  Crate, recordset_poll_max, recordset_drain_timeout, recordset_readers_finished, Drained, finished,
  timed_out, drain_loop, drain_task,
}
use aerospike_php_client.Recordset.Behaviour.{Delivers, Ticks}

module _ {K : Crate} (D : Delivers K) (T : Ticks K) where
  open D use {pending}

  -- The task ended: no reader is left, or the deadline is past.
  abbrev pub EndedBy : ℕ → K.Stream × Option Drained → Type 0
  EndedBy deadline (s, none) = ⊥
  EndedBy deadline (s, some finished) = K.strong_count s ≡ 1
  EndedBy deadline (s, some timed_out) = deadline ≤ K.now s

  leb-false : {a b : ℕ} → leb a b ≡ false → b < a
  leb-false h = ground arith

  loop-EndedBy :
      (fuel rounds deadline : ℕ) (s : K.Stream)
      → deadline ≤ K.now s + rounds * recordset_poll_max
      → length (pending s) + rounds < fuel
      → EndedBy deadline (drain_loop K fuel deadline s)
  unfolding drain_loop recordset_readers_finished
  loop-EndedBy zero rounds deadline s d h = absurd (omega arith)
  loop-EndedBy (suc fuel) rounds deadline s d h =
      elim (Bool-cases (recordset_readers_finished K s)) [
        | inl over ↦ rw (over, drain_loop) (ground arith)
        | inr reading ↦ elim (Bool-cases (leb deadline (K.now s))) [
          | inl late ↦ rw (reading, late, drain_loop) (ground arith)
          | inr early ↦ elim (Option-cases (K.next_record s).1) [
            | inr (r, e) ↦
                rw (reading, early, e, drain_loop)
                  (loop-EndedBy fuel rounds deadline (K.next_record s).0
                    (omega (arith, T.next_later s, d))
                    (omega (arith, ap length (D.some_next s r e), h)))
            | inl e ↦
                rw (reading, early, e, drain_loop)
                  (loop-EndedBy fuel (rounds - 1) deadline
                    (K.asleep recordset_poll_max (K.next_record s).0)
                    (omega (
                      arith,
                      leb-false early,
                      T.next_later s,
                      T.asleep_later recordset_poll_max (K.next_record s).0,
                      d,
                    ))
                    (omega (
                      arith,
                      leb-false early,
                      ap length
                          (D.asleep_keeps recordset_poll_max (K.next_record s).0 ∙ D.none_next s e),
                      d,
                      h,
                    )))
          ]
        ]
      ]

  -- The background task that `drain_recordset` spawns ends, after at most as many rounds as there are
  -- records pending and 2501 more: no reader is left, or the five seconds are over.
  pub drain_task-ends :
      (fuel : ℕ) (s : K.Stream)
      → length (pending s) + 2500 < fuel
      → EndedBy (K.now s + recordset_drain_timeout) (drain_task K fuel s)
  unfolding drain_task
  drain_task-ends fuel s h =
      loop-EndedBy fuel 2500 (K.now s + recordset_drain_timeout) s (omega arith) h
