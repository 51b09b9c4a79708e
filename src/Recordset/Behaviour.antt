-- ===== src/Recordset/Behaviour.antt =====
-- What `Recordset` of lib.rs relies on in the crate, as the comments there describe it.
use aerospike_php_client.Common.{ℕ, ◌+◌, ◌<◌, ◌≤◌, ◌≡◌, List, [], ◌∷◌, none, some, false, ◌&&◌, not}
use aerospike_php_client.Recordset.{
  Crate, Item, recordset_poll_min, recordset_poll_max, recordset_readers_finished,
}

-- `pending` are the records, and errors, that the stream still delivers: those in the queue and those
-- that its readers have yet to push into it.
pub record Delivers (K : Crate) : Type 0 where
  pub pending : K.Stream → List (Item K.Record)
  -- The queue is first in, first out.
  pub some_next :
      (s : K.Stream) (r : Item K.Record)
      → (K.next_record s).1 ≡ some r
      → pending s ≡ r ∷ pending (K.next_record s).0
  pub none_next :
      (s : K.Stream) → (K.next_record s).1 ≡ none → pending (K.next_record s).0 ≡ pending s
  -- A reader that pushes a record moves it into the queue, and loses none.
  pub meanwhile_keeps : (s : K.Stream) → pending (K.meanwhile s) ≡ pending s
  pub asleep_keeps : (d : ℕ) (s : K.Stream) → pending (K.asleep d s) ≡ pending s
  pub filter_keeps : (s : K.Stream) → pending (K.partition_filter s).0 ≡ pending s
  -- With no reader left and nothing in the queue there is nothing more.
  pub settled :
      (s : K.Stream)
      → K.is_active s ≡ false
      → K.strong_count s ≡ 1
      → (K.next_record s).1 ≡ none
      → pending s ≡ []

-- The readers come to an end: a round of polling that found neither a record nor the end, and slept
-- between the two bounds, leaves them less to do.
pub record Progresses (K : Crate) : Type 0 where
  pub todo : K.Stream → ℕ
  pub next_less : (s : K.Stream) → todo (K.next_record s).0 ≤ todo s
  pub meanwhile_less : (s : K.Stream) → todo (K.meanwhile s) ≤ todo s
  pub progress :
      (d : ℕ) (s : K.Stream)
      → recordset_poll_min ≤ d
      → d ≤ recordset_poll_max
      → (K.next_record s).1 ≡ none
      → (not (K.is_active (K.meanwhile (K.next_record s).0))
          && recordset_readers_finished K (K.meanwhile (K.next_record s).0))
        ≡ false
      → todo (K.asleep d (K.meanwhile (K.next_record s).0)) < todo s

-- The clock does not run backwards, and a sleep lasts as long as it was asked to.
pub record Ticks (K : Crate) : Type 0 where
  pub next_later : (s : K.Stream) → K.now s ≤ K.now (K.next_record s).0
  pub asleep_later : (d : ℕ) (s : K.Stream) → K.now s + d ≤ K.now (K.asleep d s)
