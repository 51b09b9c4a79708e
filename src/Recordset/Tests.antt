-- ===== src/Recordset/Tests.antt =====
-- A stream with its readers: `queue` is what `next_record` takes from, `coming` what the readers still
-- have, one record pushed at each sleep; the readers are gone when nothing is coming.
use aerospike_php_client.Common.{
  append_assoc, ℕ, ◌+◌, ◌<◌, ◌≤◌, ◌≡◌, refl, List, [], ◌∷◌, ◌++◌, length, Option, none, some, Bool,
  true, false, ◌&&◌, not, ◌==◌, arith,
}
use aerospike_php_client.Errors.{timeout}
use aerospike_php_client.Php.{client_error, PhpResult, returned}
use aerospike_php_client.Recordset.{
  Crate, Item, record_of, error_of, Call, Recordset, recordset_readers_finished,
  recordset_drain_timeout, next, drain_task,
}
use aerospike_php_client.Recordset.Behaviour.{Delivers, Progresses, Ticks}
use aerospike_php_client.Recordset.Next.{Works, CursorOf, Answers, next-Answers}
use aerospike_php_client.Recordset.Iterate.{read_all, failed, read_all-loop}
use aerospike_php_client.Recordset.Drain.{EndedBy, drain_task-ends}

record Stream : Type 0 where
  queue : List (Item ℕ)
  coming : List (Item ℕ)
  clock : ℕ

abbrev taken : List (Item ℕ) → List (Item ℕ) → ℕ → Stream × Option (Item ℕ)
taken [] c n = (record { queue = []; coming = c; clock = n }, none)
taken (r ∷ q) c n = (record { queue = q; coming = c; clock = n }, some r)

abbrev has_more : List (Item ℕ) → Bool
has_more [] = false
has_more (r ∷ rs) = true

abbrev holders : List (Item ℕ) → ℕ
holders [] = 1
holders (r ∷ rs) = 2

abbrev pushed : List (Item ℕ) → List (Item ℕ) → ℕ → Stream
pushed q [] now = record { queue = q; coming = []; clock = now }
pushed q (r ∷ rs) now = record { queue = q ++ (r ∷ []); coming = rs; clock = now }

abbrev crate : Crate
crate = record {
  Stream = Stream;
  Record = ℕ;
  Filter = ℕ;
  next_record = λ s. taken s.queue s.coming s.clock;
  is_active = λ s. has_more s.coming;
  strong_count = λ s. holders s.coming;
  close_stream = λ s. s;
  partition_filter = λ s. (s, some 9);
  meanwhile = λ s. s;
  asleep = λ d s. pushed s.queue s.coming (s.clock + d);
  now = λ s. s.clock;
}

abbrev pending : Stream → List (Item ℕ)
pending s = s.queue ++ s.coming

pushed-pending : (q c : List (Item ℕ)) (n : ℕ) → pending (pushed q c n) ≡ q ++ c
pushed-pending q [] n = refl
pushed-pending q (r ∷ rs) n = append_assoc q (r ∷ []) rs

taken-some :
    (q c : List (Item ℕ)) (n : ℕ) (r : Item ℕ)
    → (taken q c n).1 ≡ some r
    → q ++ c ≡ r ∷ pending (taken q c n).0
taken-some [] c n r h = absurd (ground arith)
taken-some (x ∷ q) c n r h = ground arith

taken-none :
    (q c : List (Item ℕ)) (n : ℕ) → (taken q c n).1 ≡ none → pending (taken q c n).0 ≡ q ++ c
taken-none [] c n h = refl
taken-none (x ∷ q) c n h = absurd (ground arith)

taken-settled :
    (q c : List (Item ℕ)) (n : ℕ) → has_more c ≡ false → (taken q c n).1 ≡ none → q ++ c ≡ []
taken-settled [] [] n m h = refl
taken-settled [] (x ∷ c) n m h = absurd (ground arith)
taken-settled (x ∷ q) c n m h = absurd (ground arith)

taken-clock : (q c : List (Item ℕ)) (n : ℕ) → n ≤ (taken q c n).0.clock
taken-clock [] c n = omega arith
taken-clock (x ∷ q) c n = omega arith

taken-coming : (q c : List (Item ℕ)) (n : ℕ) → length (taken q c n).0.coming ≤ length c
taken-coming [] c n = omega arith
taken-coming (x ∷ q) c n = omega arith

pushed-clock : (q c : List (Item ℕ)) (n : ℕ) → n ≤ (pushed q c n).clock
pushed-clock q [] n = omega arith
pushed-clock q (x ∷ c) n = omega arith

pushed-less :
    (d : ℕ) (q c : List (Item ℕ)) (n : ℕ)
    → (taken q c n).1 ≡ none
    → (not (has_more (taken q c n).0.coming) && (holders (taken q c n).0.coming == 1)) ≡ false
    → length
        (pushed (taken q c n).0.queue (taken q c n).0.coming ((taken q c n).0.clock + d)).coming
      < length c
pushed-less d [] [] n h m = absurd (ground arith)
pushed-less d [] (x ∷ c) n h m = omega arith
pushed-less d (x ∷ q) c n h m = absurd (ground arith)

delivers : Delivers crate
delivers = record {
  pending = pending;
  some_next = λ s r h. taken-some s.queue s.coming s.clock r h;
  none_next = λ s h. taken-none s.queue s.coming s.clock h;
  meanwhile_keeps = λ s. refl;
  asleep_keeps = λ d s. pushed-pending s.queue s.coming (s.clock + d);
  filter_keeps = λ s. refl;
  settled = λ s a c h. taken-settled s.queue s.coming s.clock a h;
}

progresses : Progresses crate
unfolding recordset_readers_finished
progresses = record {
  todo = λ s. length s.coming;
  next_less = λ s. taken-coming s.queue s.coming s.clock;
  meanwhile_less = λ s. omega arith;
  progress = λ d s lo hi h m. pushed-less d s.queue s.coming s.clock h m;
}

ticks : Ticks crate
ticks = record {
  next_later = λ s. taken-clock s.queue s.coming s.clock;
  asleep_later = λ d s. pushed-clock s.queue s.coming (s.clock + d);
}

abbrev call : Call
call = record { runtime = returned (record { home = 7; worker_threads = 2 }); panic = none }

works : Works call
works = record { rt = record { home = 7; worker_threads = 2 }; there = refl; quiet = refl }

-- One record is queued, one is coming, and then an error.
abbrev streaming : Stream
streaming = record {
  queue = record_of 11 ∷ [];
  coming = record_of 12 ∷ error_of (timeout "late") ∷ [];
  clock = 100;
}

abbrev page : Recordset crate
page = record {
  stream = some streaming;
  max_records = 0;
  cursor = some 3;
  pf_synced = false;
  client = some 0;
}

little_todo : progresses.todo streaming < 3
unfolding progresses
little_todo = omega arith

few_pending : length (delivers.pending streaming) < 4
unfolding delivers
few_pending = omega arith

next-Answers_example :
    (r : Recordset crate × PhpResult (Option ℕ)) × (next crate 3 call call page ≡ some r)
    × Answers delivers (pending streaming) page r
unfolding delivers
next-Answers_example =
    next-Answers delivers progresses 3 call call page streaming works works refl little_todo

read_all-loop_example :
    (self' : Recordset crate) × (read_all crate 4 3 call page
      ≡ some (self', failed (11 ∷ 12 ∷ []) (client_error (timeout "late"))))
    × CursorOf delivers page self'
unfolding delivers
read_all-loop_example =
    read_all-loop delivers progresses 4 3 call page streaming works refl few_pending little_todo

drain_task-ends_example :
    EndedBy delivers ticks (100 + recordset_drain_timeout) (drain_task crate 2504 streaming)
drain_task-ends_example = drain_task-ends delivers ticks 2504 streaming (omega (arith, few_pending))
