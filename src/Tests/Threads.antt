-- ===== src/Tests/Threads.antt =====
-- Two threads on one hoard: thread 0 writes 7 past its end, thread 1 reads its first item.
use cachercise.Base.{
  ℕ, ◌+◌, ◌<◌, ◌≡◌, refl, true, false, none, some, List, [], ◌∷◌, arith, ◌==◌, if◌then◌else◌,
  Bool-cases, inl, inr,
}
use cachercise.Base.Run.{ok}
use cachercise.Common.{u64, write, read}
use cachercise.Hoard.{Hoard, resize, store}
use cachercise.Dummy.Threads.{
  Call, waiting, growing, copying, leaving, reading, returned, critical, enlarging, enlarge, test,
  lock, resized, copy, copied, unlock, begin_read, System, update, Step, pick, Reach, start, later,
  member, Puts,
}
use cachercise.Dummy.Threads.Exclusive.{mutual_exclusion}
use cachercise.Dummy.Threads.Serial.{has_put, threads-serial}
use cachercise.Dummy.Threads.Sizes.{Suits}
use cachercise.Dummy.Threads.Finish.{is_returned, threads-finish}

abbrev writer : Call
writer = record { count = 1; offset = 2; scratch = 7 ∷ []; kind = write }

abbrev reader : Call
reader = record { count = 1; offset = 0; scratch = 0 ∷ []; kind = read }

abbrev calls : ℕ → Call
calls t = if t == 0 then writer else reader

abbrev first : Hoard
first = 10 ∷ 20 ∷ []

abbrev larger : Hoard
larger = 10 ∷ 20 ∷ 0 ∷ 0 ∷ 0 ∷ 0 ∷ 0 ∷ 0 ∷ 0 ∷ 0 ∷ []

abbrev written : Hoard
written = 10 ∷ 20 ∷ 7 ∷ 0 ∷ 0 ∷ 0 ∷ 0 ∷ 0 ∷ 0 ∷ 0 ∷ []

abbrev before : System
before = record { mem = record { hoard = first; storage = 0; mutex = none }; pc = λ t. waiting }

abbrev locked : System
locked = record {
  mem = record { hoard = first; storage = 0; mutex = some 0 };
  pc = update before.pc 0 growing;
}

abbrev both : System
both = record { mem = locked.mem; pc = update locked.pc 1 (reading 0 reader.scratch) }

abbrev tested : System
tested = record { mem = locked.mem; pc = update both.pc 0 enlarging }

abbrev grown : System
grown = record {
  mem = record { hoard = larger; storage = 1; mutex = some 0 };
  pc = update tested.pc 0 (copying 0);
}

abbrev stored : System
stored = record {
  mem = record { hoard = written; storage = 1; mutex = some 0 };
  pc = update grown.pc 0 (copying 1);
}

abbrev done : System
done = record { mem = stored.mem; pc = update stored.pc 0 leaving }

abbrev unlocked : System
unlocked = record {
  mem = record { hoard = written; storage = 1; mutex = none };
  pc = update done.pc 0 (returned writer.scratch);
}

locks : Step 1000 2 calls before locked
locks = pick 0 (omega arith) (lock refl refl)

both-Reach : Reach 1000 2 calls first both
both-Reach =
    later (later start locks) (pick 1 (omega arith) (begin_read (λ e. absurd (omega (arith, e)))))

grown_ok : enlarge 1000 writer first ≡ ok larger
unfolding enlarge resize
grown_ok = refl

stored_ok : store larger (u64 (2 + 0)) 7 ≡ ok written
unfolding store
stored_ok = refl

unlocked-Reach : Reach 1000 2 calls first unlocked
unlocked-Reach =
    later
      (later
        (later
          (later (later both-Reach (pick 0 (omega arith) (test refl)))
            (pick 0 (omega arith) (resized true grown_ok)))
          (pick 0 (omega arith) (copy (omega arith) refl stored_ok)))
        (pick 0 (omega arith) (copied (omega arith))))
      (pick 0 (omega arith) unlock)

mutual_exclusion_example : (◌≡◌ {A = ℕ} 0 0) × (writer.kind ≡ write)
mutual_exclusion_example = mutual_exclusion 1000 2 calls first both both-Reach 0 0 refl refl

quiet : (t : ℕ) → critical (unlocked.pc t) ≡ false
quiet t = ground arith

threads-serial_example :
    (order : List ℕ) × Puts 1000 2 calls first order written
    × ((t : ℕ) → member 1000 2 calls t order ≡ has_put (calls t) (unlocked.pc t))
threads-serial_example = threads-serial 1000 2 calls first unlocked unlocked-Reach quiet

-- Both threads write: the second to the place that is there.
abbrev second : Call
second = record { count = 1; offset = 0; scratch = 9 ∷ []; kind = write }

abbrev writers : ℕ → Call
writers t = if t == 0 then writer else second

writers_kind : (t : ℕ) → (writers t).kind ≡ write
writers_kind t = ground arith

suits : (t : ℕ) → Suits 3 2 (writers t)
suits t = elim (Bool-cases (t == 0)) [
  | inl z ↦
      rw z
        (record { buffer = omega arith; writes = λ e. omega arith; reads = λ n. absurd (n refl) })
  | inr z ↦
      rw z
        (record { buffer = omega arith; writes = λ e. omega arith; reads = λ n. absurd (n refl) })
]

threads-finish_example :
    (s' : System) × (order : List ℕ) × Reach 1000 2 writers first s'
    × ((t : ℕ) → t < 2 → is_returned (s'.pc t) ≡ true)
    × Puts 1000 2 writers first order s'.mem.hoard
    × ((t : ℕ) → t < 2 → member 1000 2 writers t order ≡ ((writers t).kind == write))
threads-finish_example =
    threads-finish 1000 3 2
      (record { addressable = omega arith; room = omega arith; short = omega arith }) 2 writers
      (λ t u e. writers_kind u) suits first refl locked
      (later start (pick 0 (omega arith) (lock refl refl)))
