-- ===== src/SharedLines.antt =====
-- OS UNIX+ System V/Shared Memory/laboratory work #34/src: producer.c puts lines into a piece of
-- shared memory, consumer.c prints them, and two semaphores pass the memory from one to the other.
-- What fgets gives are the lines (pieces of at most 127 symbols), and a call that blocks is a step
-- that cannot be taken. All operations on the semaphores have SEM_UNDO; the largest value of a semaphore
-- and of an adjustment, which are the same number (32767 on Linux), is the parameter `semaem`.
pub mod Phases
pub mod Order
mod Tests
use sys_prog.Prelude.{
  ◌&&◌, ltb, leb, ◌-◌, if◌then◌else◌, ℕ, zero, suc, ◌+◌, ◌≡◌, Bool, true, false, Option, none, some,
  List, [], ◌∷◌, ◌++◌,
}

-- Before the semop for writing, before fgets, before the semop that lets the consumer read, after
-- the loop, and after the removal of the memory and of the semaphores.
pub data Producer : Type 0 where
  p_lock : Producer
  p_read : Producer
  p_unlock : Producer
  p_end : Producer
  p_done : Producer

-- Before the semop for reading, before printf, before the semop that lets the producer write, and
-- after the loop.
pub data Consumer : Type 0 where
  c_lock : Consumer
  c_print : Consumer
  c_unlock : Consumer
  c_done : Consumer

-- `removed` says that the semaphores are gone; `printed` is what the consumer has written. How often
-- each program has taken its operations is what SEM_UNDO would take back: the adjustments of the
-- producer for writing and, with the other sign, for reading, and those of the consumer.
pub record Lines : Type 0 where
  pub write_downs : ℕ
  pub read_ups : ℕ
  pub read_downs : ℕ
  pub write_ups : ℕ
  pub sem_read : ℕ
  pub sem_write : ℕ
  pub removed : Bool
  pub product : ℕ
  pub input : List ℕ
  pub printed : List ℕ
  pub producer : Producer
  pub consumer : Consumer

-- sem_vals of the producer are {0, 1}.
unfoldable pub opened : ℕ → List ℕ → Lines
opened garbage ls = record {
  write_downs = 0;
  read_ups = 0;
  read_downs = 0;
  write_ups = 0;
  sem_read = 0;
  sem_write = 1;
  removed = false;
  product = garbage;
  input = ls;
  printed = [];
  producer = p_lock;
  consumer = c_lock;
}

-- The set-up of the producer, from which of its calls succeed; `none` is the return of -1.
unfoldable pub producer_opens :
    (ftok_m shmget shmat ftok_s semget set_all : Bool) → ℕ → List ℕ → Option Lines
producer_opens ftok_m shmget shmat ftok_s semget set_all garbage ls =
    if ftok_m && shmget && shmat && ftok_s && semget && set_all
    then some (opened garbage ls)
    else none

-- That of the consumer.
unfoldable pub consumer_opens : (ftok_m shmget shmat ftok_s semget : Bool) → Option Consumer
consumer_opens ftok_m shmget shmat ftok_s semget =
    if ftok_m && shmget && shmat && ftok_s && semget then some c_lock else none

-- A semop of -1, after so many of the program: on removed semaphores it fails, at 0 it blocks, and
-- where the adjustment would be too large it fails.
unfoldable pub semop_down :
    (semaem : ℕ) → Bool → (value before : ℕ) → (fails : Lines) → (ℕ → Lines) → Option Lines
semop_down semaem true value before fails goes = some fails
semop_down semaem false zero before fails goes = none
semop_down semaem false (suc n) before fails goes =
    some (if ltb before semaem then goes n else fails)

-- A semop of 1, which fails also where the value would be too large; the least adjustment is
-- -(semaem + 1).
unfoldable pub semop_up :
    (semaem : ℕ) → Bool → (value before : ℕ) → (fails : Lines) → (ℕ → Lines) → Option Lines
semop_up semaem true value before fails goes = some fails
semop_up semaem false value before fails goes =
    some (if ltb value semaem && leb before semaem then goes (value + 1) else fails)

unfoldable pub read_line : List ℕ → Lines → Lines
read_line [] s = record s { producer = p_end }
read_line (l ∷ ls) s = record s { product = l; input = ls; producer = p_unlock }

unfoldable pub produce : (semaem : ℕ) → Producer → Lines → Option Lines
produce semaem p_lock s =
    semop_down semaem s.removed s.sem_write s.write_downs (record s { producer = p_end })
      (λ n. record s { sem_write = n; write_downs = s.write_downs + 1; producer = p_read })
produce semaem p_read s = some (read_line s.input s)
produce semaem p_unlock s =
    semop_up semaem s.removed s.sem_read s.read_ups (record s { producer = p_end })
      (λ n. record s { sem_read = n; read_ups = s.read_ups + 1; producer = p_lock })
produce semaem p_end s = some (record s { removed = true; producer = p_done })
produce semaem p_done s = none

-- The consumer leaves its loop and ends: what is left of its operations is taken back.
unfoldable pub consumer_ends : (semaem : ℕ) → Bool → Lines → Lines
consumer_ends semaem true s = record s { consumer = c_done }
consumer_ends semaem false s = record s {
  sem_read = if leb (s.sem_read + s.read_downs) semaem then s.sem_read + s.read_downs else semaem;
  sem_write = s.sem_write - s.write_ups;
  consumer = c_done;
}

unfoldable pub consume : (semaem : ℕ) → Consumer → Lines → Option Lines
consume semaem c_lock s =
    semop_down semaem s.removed s.sem_read s.read_downs (consumer_ends semaem s.removed s)
      (λ n. record s { sem_read = n; read_downs = s.read_downs + 1; consumer = c_print })
consume semaem c_print s =
    some (record s { printed = s.printed ++ s.product ∷ []; consumer = c_unlock })
consume semaem c_unlock s =
    semop_up semaem s.removed s.sem_write s.write_ups (consumer_ends semaem s.removed s)
      (λ n. record s { sem_write = n; write_ups = s.write_ups + 1; consumer = c_lock })
consume semaem c_done s = none

-- The runs of the two programs: `true` is a step of the producer.
unfoldable pub turn_of : (semaem : ℕ) → Bool → Lines → Option Lines
turn_of semaem true s = produce semaem s.producer s
turn_of semaem false s = consume semaem s.consumer s

pub data Run (semaem : ℕ) : Lines → Lines → Type 0 where
  stay : {s : Lines} → Run semaem s s
  one_more :
      {s t u : Lines}
      → Run semaem s t
      → (who : Bool) → turn_of semaem who t ≡ some u
      → Run semaem s u
