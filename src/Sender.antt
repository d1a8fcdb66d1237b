-- ===== src/Sender.antt =====
-- OS UNIX+ System V/Message queue/laboratory work #31/src/sender.c: the sender of lines to the
-- receivers that have joined; recver.c is the other side. The queue is a parameter: what each call of
-- msgrcv gives, and the list of what is sent.
pub mod Slots
pub mod Broadcast
pub mod Members
pub mod Recver
mod Tests
use sys_prog.Prelude.{
  ℕ, zero, suc, ◌+◌, ◌-◌, ◌%◌, ◌^◌, Bool, true, false, Option, none, some, List, [], ◌∷◌, ◌++◌,
  ◌==◌, ltb, if◌then◌else◌,
}

-- MAX_SENDRERS_NUM
abbrev pub max_senders_num : ℕ
max_senders_num = 255

-- The array `recvers` and the two counters; an int is kept as its value of 32 bits.
pub record Recvers : Type 0 where
  pub pid : ℕ → ℕ
  pub is_alive : ℕ → Bool
  pub senders_num : ℕ
  pub alive_recvers_num : ℕ

pub data Text : Type 0 where
  pid_text : ℕ → Text
  no_room : Text
  line : ℕ → Text
  finish : Text

-- A message with its mtype.
pub record Msg : Type 0 where
  pub mtype : ℕ
  pub mtext : Text

unfoldable pub array_set {ℓ} : {A : Type ℓ} → (ℕ → A) → ℕ → A → ℕ → A
array_set f i a j = if i == j then a else f j

-- while (i < MAX_SENDRERS_NUM && recvers[i].is_alive) i++; with `n` rounds left.
unfoldable pub first_dead : (n i : ℕ) → (ℕ → Bool) → ℕ
first_dead zero i alive = i
first_dead (suc n) i alive = elim (alive i) [ true ↦ first_dead n (i + 1) alive | false ↦ i ]

-- A request to join: the new state, and the answer.
unfoldable pub recver_joins : ℕ → ℕ → Recvers → Recvers × Msg
recver_joins own_pid p r =
    let i = first_dead max_senders_num 0 r.is_alive in
    if i == max_senders_num
    then (record r { senders_num = i + 1 }, record { mtype = p; mtext = no_room })
    else (
      record {
        pid = array_set r.pid i p;
        is_alive = array_set r.is_alive i true;
        senders_num = i + 1;
        alive_recvers_num = (r.alive_recvers_num + 1) % 2 ^ 32;
      },
      record { mtype = p; mtext = pid_text own_pid },
    )

-- for(i = 0; i < senders_num; i++) if(recvers[i].pid == recv_pid) …, with `n` rounds left from `i`;
-- `none` is an access out of the bounds of the array.
unfoldable pub clear : (n i p : ℕ) → Recvers → Option Recvers
clear zero i p r = some r
clear (suc n) i p r =
    let rest = clear n (i + 1) p r in
    if ltb i max_senders_num
    then (if r.pid i == p
        then some (record r { is_alive = array_set r.is_alive i false })
        else rest)
    else none

-- A receiver that leaves.
unfoldable pub recver_leaves : ℕ → Recvers → Option Recvers
recver_leaves p r = elim (clear r.senders_num 0 p r) [
  | none ↦ none
  | some r' ↦
      some (record r' { alive_recvers_num = (r'.alive_recvers_num + (2 ^ 32 - 1)) % 2 ^ 32 })
]

-- for(i = 0; i < senders_num; i++) if(recvers[i].is_alive) msgsnd(…), with `n` rounds left from `i`.
unfoldable pub send_all : (n i : ℕ) → Text → Recvers → Option (List Msg)
send_all zero i t r = some []
send_all (suc n) i t r =
    let rest = send_all n (i + 1) t r in
    if ltb i max_senders_num
    then (if r.is_alive i
        then elim rest [ none ↦ none | some ms ↦ some (record { mtype = r.pid i; mtext = t } ∷ ms) ]
        else rest)
    else none

-- The loop at the end: the message is sent in every round, with the mtype that it has.
unfoldable pub finish_all : (n i mtype : ℕ) → Recvers → Option (List Msg)
finish_all zero i mtype r = some []
finish_all (suc n) i mtype r =
    let mtype' = if r.is_alive i then r.pid i else mtype in
    let rest = finish_all n (i + 1) mtype' r in
    if ltb i max_senders_num
    then elim rest [ none ↦ none | some ms ↦ some (record { mtype = mtype'; mtext = finish } ∷ ms) ]
    else none

pub data RoundEnd : Type 0 where
  go_on : Recvers → List Msg → RoundEnd
  stop : Recvers → List Msg → RoundEnd
  fault : RoundEnd

unfoldable pub send_line : Option ℕ → Recvers → List Msg → RoundEnd
send_line none r sent = go_on r sent
send_line (some t) r sent = elim (send_all r.senders_num 0 (line t) r) [
  | none ↦ fault
  | some ms ↦ go_on r (sent ++ ms)
]

unfoldable pub answer_leave : Option ℕ → Option ℕ → Recvers → List Msg → RoundEnd
answer_leave none t r sent = send_line t r sent
answer_leave (some p) t r sent = elim (recver_leaves p r) [
  | none ↦ fault
  | some r' ↦ elim (r'.alive_recvers_num == 0) [ true ↦ stop r' sent | false ↦ send_line t r' sent ]
]

-- One round of the main loop: who joins, who leaves, and the line that was typed.
unfoldable pub sender_round : ℕ → (joins leaves typed : Option ℕ) → Recvers → RoundEnd
sender_round own_pid none l t r = answer_leave l t r []
sender_round own_pid (some p) l t r =
    answer_leave l t (recver_joins own_pid p r).0 ((recver_joins own_pid p r).1 ∷ [])

unfoldable pub no_recvers : Recvers
no_recvers = record { pid = λ i. 0; is_alive = λ i. false; senders_num = 0; alive_recvers_num = 0 }
