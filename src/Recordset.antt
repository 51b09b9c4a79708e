-- ===== src/Recordset.antt =====
-- `Recordset` of lib.rs, with `rt_call`. `Crate` is what the aerospike crate and its reader tasks bring:
-- `aero::Recordset` with its methods, and what the tasks do while the PHP thread is between two calls or
-- asleep.
pub mod Behaviour
pub mod Poll
pub mod Next
pub mod Iterate
pub mod Drain
pub mod Close
pub mod Tests
use Prim.Native.String.{String}
use aerospike_php_client.Common.{
  ℕ, zero, suc, ◌+◌, ◌*◌, Option, none, some, Bool, true, false, ◌&&◌, not, leb, ◌==◌, min,
  if◌then◌else◌,
}
use aerospike_php_client.Errors.{Error}
use aerospike_php_client.Php.{PhpResult, returned, threw, panicked, client_error, ◌>>=◌}
use aerospike_php_client.Runtime.{Tokio}

-- `Result<aero::Record, aero::Error>`.
pub data Item (R : Type 0) : Type 0 where
  record_of : R → Item R
  error_of : Error → Item R

pub record Crate : Type 1 where
  pub Stream : Type 0
  pub Record : Type 0
  pub Filter : Type 0
  pub next_record : Stream → Stream × Option (Item Record)
  pub is_active : Stream → Bool
  pub strong_count : Stream → ℕ
  pub close_stream : Stream → Stream
  pub partition_filter : Stream → Stream × Option Filter
  -- Between two calls of the PHP thread.
  pub meanwhile : Stream → Stream
  -- While a task sleeps, for so many microseconds.
  pub asleep : ℕ → Stream → Stream
  -- `Instant::now()`, in microseconds.
  pub now : Stream → ℕ

-- What the outside world answers to one `rt_call` or `rt_block_on`: the result of `tokio_rt()`, and the
-- message of a panic of the closure. A closure that panics is taken to change nothing.
pub record Call : Type 0 where
  pub runtime : PhpResult Tokio
  pub panic : Option String

unfoldable pub catch_panic : {S A : Type 0} → Option String → (S → S × A) → S → S × PhpResult A
catch_panic none f s = let (s', a) = f s in (s', returned a)
catch_panic (some m) f s = (s, threw (panicked m))

unfoldable pub under_runtime :
    {S A : Type 0} → PhpResult Tokio → (S → S × PhpResult A) → S → S × PhpResult A
under_runtime (returned rt) f s = f s
under_runtime (threw e) f s = (s, threw e)

-- `rt_call`, and `rt_block_on`.
unfoldable pub rt_call : {S A : Type 0} → Call → (S → S × A) → S → S × PhpResult A
unfolding under_runtime catch_panic
rt_call call f = under_runtime call.runtime (catch_panic call.panic f)

abbrev pub recordset_poll_min : ℕ
recordset_poll_min = 50

abbrev pub recordset_poll_max : ℕ
recordset_poll_max = 2000

abbrev pub recordset_drain_timeout : ℕ
recordset_drain_timeout = 5000000

-- How the background task of `drain_recordset` ends.
pub data Drained : Type 0 where
  finished : Drained
  timed_out : Drained

module _ (K : Crate) where
  open K use {
    Stream, Record, Filter, next_record, is_active, strong_count, close_stream, partition_filter,
    meanwhile, asleep, now,
  }

  -- `Recordset`: `stream` is `_as`, `cursor` what the shared `PartitionFilter` holds, and `client` is
  -- `_client`, by the number that the client has.
  pub record Recordset : Type 0 where
    pub stream : Option Stream
    pub max_records : ℕ
    pub cursor : Option Filter
    pub pf_synced : Bool
    pub client : Option ℕ

  -- `recordset_backoff`.
  unfoldable pub recordset_backoff : ℕ → Stream → Stream × ℕ
  recordset_backoff backoff s = (asleep backoff s, min (backoff * 2) recordset_poll_max)

  unfoldable pub recordset_readers_finished : Stream → Bool
  recordset_readers_finished s = strong_count s == 1

  -- The loop of `next`; the outer `none` is that the fuel ran out.
  unfoldable pub poll : ℕ → ℕ → Stream → Stream × Option (Option (Item Record))
  unfolding recordset_backoff recordset_readers_finished
  poll zero backoff s = (s, none)
  poll (suc fuel) backoff s =
      let (s1, rec) = next_record s in
      elim rec [
        | some r ↦ (s1, some (some r))
        | none ↦
            let s2 = meanwhile s1 in
            elim (not (is_active s2) && recordset_readers_finished s2) [
              | true ↦ let (s3, last) = next_record s2 in (s3, some last)
              | false ↦ let (s3, backoff') = recordset_backoff backoff s2 in poll fuel backoff' s3
            ]
      ]

  abbrev pub written : Filter → Option Filter → Filter
  written old none = old
  written old (some new_pf) = new_pf

  -- What becomes of `rs.partition_filter()`.
  unfoldable pub write_back :
      Recordset → Filter → Stream × PhpResult (Option Filter) → Recordset × PhpResult (Unit {0})
  write_back self old (s, returned updated) = (
    record self { stream = some s; cursor = some (written old updated); pf_synced = true },
    returned tt,
  )
  write_back self old (s, threw e) = (record self { stream = some s }, threw e)

  unfoldable pub sync_between :
      Call → Recordset → Option Filter → Option Stream → Recordset × PhpResult (Unit {0})
  unfolding rt_call write_back
  sync_between call self (some old) (some s) = write_back self old (rt_call call partition_filter s)
  sync_between call self _ _ = (record self { pf_synced = true }, returned tt)

  -- `sync_partition_filter_back`.
  unfoldable pub sync_partition_filter_back : Call → Recordset → Recordset × PhpResult (Unit {0})
  unfolding sync_between
  sync_partition_filter_back call self =
      if self.pf_synced then (self, returned tt) else sync_between call self self.cursor self.stream

  -- `self.sync_partition_filter_back()?; Ok(None)`.
  abbrev pub end_of_stream :
      Recordset × PhpResult (Unit {0}) → Recordset × PhpResult (Option Record)
  end_of_stream (self, returned x) = (self, returned none)
  end_of_stream (self, threw e) = (self, threw e)

  -- The match on what was polled; the outer `none` is still that the fuel ran out.
  unfoldable pub answer :
      Call
      → Recordset
      → PhpResult (Option (Option (Item Record)))
      → Option (Recordset × PhpResult (Option Record))
  unfolding sync_partition_filter_back
  answer sync self (threw e) = some (self, threw e)
  answer sync self (returned none) = none
  answer sync self (returned (some (some (record_of r)))) = some (self, returned (some r))
  answer sync self (returned (some (some (error_of e)))) = some (self, threw (client_error e))
  answer sync self (returned (some none)) =
      some (end_of_stream (sync_partition_filter_back sync self))

  unfoldable pub next_from :
      ℕ → Call → Call → Recordset → Option Stream → Option (Recordset × PhpResult (Option Record))
  unfolding rt_call poll answer
  next_from fuel call sync self none = some (self, returned none)
  next_from fuel call sync self (some s) =
      let (s', polled) = rt_call call (poll fuel recordset_poll_min) s in
      answer sync (record self { stream = some s' }) polled

  -- `Recordset::next`.
  unfoldable pub next : ℕ → Call → Call → Recordset → Option (Recordset × PhpResult (Option Record))
  unfolding next_from
  next fuel call sync self = next_from fuel call sync self self.stream

  -- The loop of the background task of `drain_recordset`; `none` is that the fuel ran out.
  unfoldable pub drain_loop : ℕ → ℕ → Stream → Stream × Option Drained
  unfolding recordset_readers_finished
  drain_loop zero deadline s = (s, none)
  drain_loop (suc fuel) deadline s = elim (recordset_readers_finished s) [
    | true ↦ (s, some finished)
    | false ↦ elim (leb deadline (now s)) [
      | true ↦ (s, some timed_out)
      | false ↦
          let (s1, rec) = next_record s in
          elim rec [
            | some r ↦ drain_loop fuel deadline s1
            | none ↦ drain_loop fuel deadline (asleep recordset_poll_max s1)
          ]
    ]
  ]

  unfoldable pub drain_task : ℕ → Stream → Stream × Option Drained
  unfolding drain_loop
  drain_task fuel s = drain_loop fuel (now s + recordset_drain_timeout) s

  -- `drain_recordset`: the task that it spawns, if it does.
  unfoldable pub drain_recordset : PhpResult Tokio → Stream → Option Stream
  unfolding recordset_readers_finished
  drain_recordset (returned rt) s = if recordset_readers_finished s then none else some s
  drain_recordset (threw e) s = none

  unfoldable pub close_from :
      PhpResult Tokio → Recordset → Option Stream → Recordset × Option Stream
  unfolding recordset_readers_finished drain_recordset
  close_from rt self none = (self, none)
  close_from rt self (some s) =
      let s' = close_stream s in
      if self.max_records == 0 && not (recordset_readers_finished s')
      then (record self { stream = none }, drain_recordset rt s')
      else (record self { stream = some s' }, none)

  -- `Recordset::close`, with the stream that is left to a background task.
  unfoldable pub close : PhpResult Tokio → Recordset → Recordset × Option Stream
  unfolding close_from
  close rt self = close_from rt self self.stream

  -- `Drop for Recordset`.
  unfoldable pub drop : PhpResult Tokio → Recordset → Option Stream
  unfolding drain_recordset
  drop rt self = elim self.stream [ none ↦ none | some s ↦ drain_recordset rt (close_stream s) ]

  unfoldable pub get_active : Recordset → Bool
  get_active self = elim self.stream [ none ↦ false | some s ↦ is_active s ]
