-- ===== src/Recordset/Close.antt =====
-- What `Recordset::close` of lib.rs leaves behind, on both its branches and whether or not a runtime is
-- there to drain on.
use aerospike_php_client.Common.{ℕ, ◌+◌, ◌≡◌, ◌≢◌, ◌⊎◌, [], Option, none, some}
use aerospike_php_client.Php.{PhpResult, returned, threw}
use aerospike_php_client.Runtime.{Tokio}
use aerospike_php_client.Recordset.{Crate, Call, Recordset, recordset_drain_timeout, drain_task}
use aerospike_php_client.Recordset.Behaviour.{Delivers, Progresses, Ticks}
use aerospike_php_client.Recordset.Next.{CursorOf}
use aerospike_php_client.Recordset.Iterate.{read_all, ended, loop_of}
use aerospike_php_client.Recordset.Drain.{EndedBy}

module _ {K : Crate} (D : Delivers K) (P : Progresses K) (T : Ticks K) where
  open D use {pending}

  -- What becomes of a detached stream: with a runtime it is given to the background task, which ends, and
  -- without one to nobody.
  abbrev pub IsDrained : ℕ → PhpResult Tokio → Option K.Stream → K.Stream → Type 0
  IsDrained fuel (returned rt) task s =
      (task ≡ some s) × EndedBy D T (K.now s + recordset_drain_timeout) (drain_task K fuel s)
  IsDrained fuel (threw e) task s = task ≡ none

  -- A recordset without a bound whose readers still run lets go of its stream: a loop over it then sees
  -- nothing and changes nothing.
  abbrev pub Detached :
      ℕ
      → ℕ
      → Call
      → PhpResult Tokio
      → Recordset K
      → K.Stream
      → Recordset K × Option K.Stream
      → Type 0
  Detached rounds fuel call rt self s (self', task) =
      (self.max_records ≡ 0)
      × (K.strong_count s ≢ 1)
      × IsDrained rounds rt task s
      × (read_all K rounds fuel call self' ≡ some (self', ended []))
      × (self'.cursor ≡ self.cursor)
      × (self'.pf_synced ≡ self.pf_synced)

  -- Any other recordset keeps its stream: a loop over it then sees all that is pending, as it would have.
  abbrev pub Kept : ℕ → ℕ → Call → Recordset K → K.Stream → Recordset K × Option K.Stream → Type 0
  Kept rounds fuel call self s (self', task) =
      ((self.max_records ≢ 0) ⊎ (K.strong_count s ≡ 1))
      × (task ≡ none)
      × ((last : Recordset K) × (read_all K rounds fuel call self'
            ≡ some (last, loop_of (pending s)))
          × CursorOf D self last)
