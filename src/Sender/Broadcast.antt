-- ===== src/Sender/Broadcast.antt =====
-- To whom the sender sends a line.
use sys_prog.Prelude.{
  ℕ, zero, suc, ◌+◌, ◌≤◌, ◌<◌, ◌≡◌, refl, sym, ap, subst, ◌∙◌, true, false, Option, none, some,
  List, [], ◌∷◌, arith, ◌==◌, ltb, Bool-cases, ℕ_discrete, inl, inr, ◌⊎◌, ne→==, lt→ltb, ◌%◌, ◌^◌,
}
use sys_prog.Sender.{
  Recvers, Msg, Text, line, no_room, array_set, first_dead, max_senders_num, recver_joins, send_all,
  sender_round, answer_leave, send_line, fault,
}
use sys_prog.Sender.Slots.{array_set-same, array_set-other, first_dead-alive, first_dead-dead}

abbrev pub Sent : Msg → List Msg → Type 0
Sent m [] = ⊥
Sent m (n ∷ ns) = (m ≡ n) ⊎ Sent m ns

abbrev pub to : Recvers → Text → ℕ → Msg
to r t k = record { mtype = r.pid k; mtext = t }

-- Exactly the live receivers of a part of the array get the message.
pub send_all-Sent :
    (n i : ℕ) (t : Text) (r : Recvers)
    → i + n ≤ max_senders_num
    → (ms : List Msg) × (send_all n i t r ≡ some ms)
      × ((k : ℕ) → i ≤ k → k < i + n → r.is_alive k ≡ true → Sent (to r t k) ms)
      × ((m : Msg)
          → Sent m ms
          → (k : ℕ) × (i ≤ k) × (k < i + n) × (r.is_alive k ≡ true) × (m ≡ to r t k))
unfolding send_all
send_all-Sent zero i t r le = ([], refl, (λ k a b l. absurd (omega arith)), (λ m h. absurd h))
send_all-Sent (suc n) i t r le =
    let (ms, run, all, only) = send_all-Sent n (i + 1) t r (omega arith) in
    let inside = lt→ltb i max_senders_num (omega arith) in
    elim (Bool-cases (r.is_alive i)) [
      | inr dead ↦ (
        ms,
        rw (inside, dead) run,
        (λ k a b l. elim (ℕ_discrete i k) [
          | yes same ↦ absurd (
              let e : false ≡ true = sym dead ∙ subst (λ k. r.is_alive k ≡ true) (sym same) l in
              ground arith)
          | no other ↦ all k (omega arith) (omega arith) l
        ]),
        (λ m h. let (k, a, b, l, e) = only m h in (k, omega arith, omega arith, l, e)),
      )
      | inl live ↦ (
        to r t i ∷ ms,
        rw (inside, live, run) refl,
        (λ k a b l. elim (ℕ_discrete i k) [
          | yes same ↦ inl (ap (to r t) (sym same))
          | no other ↦ inr (all k (omega arith) (omega arith) l)
        ]),
        (λ m h. elim h [
          | inl e ↦ (i, omega arith, omega arith, live, e)
          | inr h' ↦ let (k, a, b, l, e) = only m h' in (k, omega arith, omega arith, l, e)
        ]),
      )
    ]

-- The request to join where a slot is dead: the first dead slot is taken, and the next line goes to
-- the receivers in the slots up to it, the new one among them, and to nobody else, also where
-- receivers in higher slots are alive.
pub recver_joins-send_all :
    (own_pid p t k : ℕ) (r : Recvers)
    → k < max_senders_num
    → r.is_alive k ≡ false
    → (let r' = (recver_joins own_pid p r).0 in
        (i : ℕ) × (ms : List Msg) × (i < max_senders_num)
        × (r.is_alive i ≡ false)
        × (r'.pid i ≡ p)
        × ((j : ℕ) → j < i → (r.is_alive j ≡ true) × (r'.pid j ≡ r.pid j))
        × (send_all r'.senders_num 0 (line t) r' ≡ some ms)
        × ((j : ℕ) → j ≤ i → Sent (to r' (line t) j) ms)
        × ((m : Msg) → Sent m ms → (j : ℕ) × (j ≤ i) × (m ≡ to r' (line t) j)))
unfolding recver_joins
recver_joins-send_all own_pid p t k r lt dead =
    let i = first_dead max_senders_num 0 r.is_alive in
    let (low, high, before) = first_dead-alive max_senders_num 0 r.is_alive in
    let room : i < max_senders_num =
      (let out : ¬ (k < i) =
          λ h. (let e : false ≡ true = sym dead ∙ before k (omega arith) h in ground arith) in
        omega arith) in
    let full : (i == max_senders_num) ≡ false =
      ne→== i max_senders_num (λ e. absurd (omega arith)) in
    let r' : Recvers = record {
      pid = array_set r.pid i p;
      is_alive = array_set r.is_alive i true;
      senders_num = i + 1;
      alive_recvers_num = (r.alive_recvers_num + 1) % 2 ^ 32;
    } in
    let (ms, run, all, only) = send_all-Sent (i + 1) 0 (line t) r' (omega arith) in
    let others : ((j : ℕ) → j < i → r'.is_alive j ≡ true) =
      λ j h. array_set-other r.is_alive i true j (omega arith) ∙ before j (omega arith) h in
    let live : ((j : ℕ) → j ≤ i → r'.is_alive j ≡ true) = λ j h. elim (ℕ_discrete i j) [
      | yes same ↦ subst (λ j. r'.is_alive j ≡ true) same (array_set-same r.is_alive i true)
      | no other ↦ others j (omega arith)
    ] in
    rw full (
      i,
      ms,
      room,
      first_dead-dead max_senders_num 0 r.is_alive (omega arith),
      array_set-same r.pid i p,
      (λ j h. (before j (omega arith) h, array_set-other r.pid i p j (omega arith))),
      run,
      (λ j h. all j (omega arith) (omega arith) (live j h)),
      (λ m h. let (j, a, b, l, e) = only m h in (j, omega arith, e)),
    )

module _ (n i : ℕ) (t : Text) (r : Recvers) (inside : ltb i max_senders_num ≡ true) where
  send_all-dead : r.is_alive i ≡ false → send_all (suc n) i t r ≡ send_all n (i + 1) t r
  unfolding send_all
  send_all-dead dead = rw (send_all, inside, dead) refl

  send_all-live :
      r.is_alive i ≡ true
      → send_all (suc n) i t r ≡ elim (send_all n (i + 1) t r) as (λ o. Option (List Msg)) [
        | none ↦ none
        | some ms ↦ some (to r t i ∷ ms)
      ]
  unfolding send_all
  send_all-live live = rw (send_all, inside, live) refl

send_all-fault :
    (n i : ℕ) (t : Text) (r : Recvers)
    → i + n ≡ suc max_senders_num
    → 0 < n
    → send_all n i t r ≡ none
unfolding send_all
send_all-fault zero i t r e lt = absurd (omega arith)
send_all-fault (suc zero) i t r e lt =
    let out : ltb i max_senders_num ≡ false = ground arith in rw out refl
send_all-fault (suc (suc n)) i t r e lt =
    let rest = send_all-fault (suc n) (i + 1) t r (omega arith) (omega arith) in
    let inside = lt→ltb i max_senders_num (omega arith) in
    elim (Bool-cases (r.is_alive i)) [
      | inl live ↦ send_all-live (suc n) i t r inside live ∙ rw rest refl
      | inr dead ↦ send_all-dead (suc n) i t r inside dead ∙ rest
    ]

-- Where all slots are alive, a request to join is refused, and nothing changes but the number of
-- slots to look at, which is then beyond the array: the next line makes the sender read out of the
-- bounds of the array.
pub recver_joins-full :
    (own_pid p t : ℕ) (r : Recvers)
    → ((k : ℕ) → k < max_senders_num → r.is_alive k ≡ true)
    → (recver_joins own_pid p r
        ≡ (record r { senders_num = 256 }, record { mtype = p; mtext = no_room }))
      × (sender_round own_pid (some p) none (some t) r ≡ fault)
unfolding recver_joins sender_round answer_leave send_line send_all
recver_joins-full own_pid p t r h =
    let (low, high, before) = first_dead-alive max_senders_num 0 r.is_alive in
    let full : first_dead max_senders_num 0 r.is_alive ≡ max_senders_num =
      (let out : ¬ (first_dead max_senders_num 0 r.is_alive < max_senders_num) = λ lt.
          (let e : true ≡ false =
              sym (h _ lt) ∙ first_dead-dead max_senders_num 0 r.is_alive (omega arith) in
            ground arith) in
        omega arith) in
    let broken =
      send_all-fault 256 0 (line t) (record r { senders_num = 256 }) refl (omega arith) in
    (rw full refl, rw full (rw broken refl))
