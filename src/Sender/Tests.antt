-- ===== src/Sender/Tests.antt =====
-- Requests on concrete arrays, and a receiver that gets no more lines after another one has taken
-- the slot of a third.
use sys_prog.Prelude.{
  ℕ, zero, suc, ◌+◌, ◌≤◌, ◌<◌, ◌≡◌, refl, true, false, none, some, List, [], ◌∷◌, arith, ◌==◌, ltb,
  if◌then◌else◌,
}
use sys_prog.Sender.{
  Recvers, Msg, line, no_room, array_set, first_dead, max_senders_num, recver_joins, send_all,
  sender_round, fault,
}
use sys_prog.Sender.Broadcast.{Sent, to, recver_joins-send_all, recver_joins-full}
use sys_prog.Sender.Members.{IsCounted, count, one}

-- Receivers with the pids 11 and 12; then 11 has left.
abbrev two : Recvers
two = record {
  pid = λ i. if i == 0 then 11 else 12;
  is_alive = λ i. ltb i 2;
  senders_num = 2;
  alive_recvers_num = 2;
}

abbrev only_second : Recvers
only_second = record two { is_alive = λ i. i == 1; alive_recvers_num = 1 }

-- The receiver 12 is alive, and the line goes to 13 only.
line_is_lost :
    send_all
      (recver_joins 5 13 only_second).0.senders_num
      0
      (line 9)
      (recver_joins 5 13 only_second).0
    ≡ some (record { mtype = 13; mtext = line 9 } ∷ [])
unfolding send_all recver_joins first_dead array_set
line_is_lost = refl

recver_joins-send_all_example :
    (let r' = (recver_joins 5 13 only_second).0 in
      (i : ℕ) × (ms : List Msg) × (i < max_senders_num)
      × (only_second.is_alive i ≡ false)
      × (r'.pid i ≡ 13)
      × ((j : ℕ) → j < i → (only_second.is_alive j ≡ true) × (r'.pid j ≡ only_second.pid j))
      × (send_all r'.senders_num 0 (line 9) r' ≡ some ms)
      × ((j : ℕ) → j ≤ i → Sent (to r' (line 9) j) ms)
      × ((m : Msg) → Sent m ms → (j : ℕ) × (j ≤ i) × (m ≡ to r' (line 9) j)))
recver_joins-send_all_example = recver_joins-send_all 5 13 9 0 only_second (omega arith) refl

abbrev full : Recvers
full = record {
  pid = λ i. i + 100;
  is_alive = λ i. true;
  senders_num = 255;
  alive_recvers_num = 255;
}

recver_joins-full_example :
    (recver_joins 5 13 full
      ≡ (record full { senders_num = 256 }, record { mtype = 13; mtext = no_room }))
    × (sender_round 5 (some 13) none (some 9) full ≡ fault)
recver_joins-full_example = recver_joins-full 5 13 9 full (λ k h. refl)

two-IsCounted : IsCounted two
unfolding count one
two-IsCounted = (refl, omega arith)

two-live : (j : ℕ) → j < 2 → two.pid j ≡ 12 → two.is_alive j ≡ true
two-live zero h e = refl
two-live (suc zero) h e = refl
two-live (suc (suc j)) h e = absurd (omega arith)
