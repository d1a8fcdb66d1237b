-- ===== src/Sender/Members.antt =====
-- The counter of the live receivers.
use sys_prog.Prelude.{
  ℕ, zero, suc, ◌+◌, ◌-◌, ◌%◌, ◌^◌, ◌≤◌, ◌<◌, ◌≡◌, ◌≢◌, refl, sym, ap, subst, ◌∙◌, Bool, true,
  false, some, arith, ◌==◌, Bool-cases, ℕ_discrete, inl, inr, eq→==, ne→==, lt→ltb,
}
use sys_prog.Sender.{
  Recvers, array_set, first_dead, max_senders_num, recver_joins, recver_leaves, clear,
}
use sys_prog.Sender.Slots.{array_set-same, array_set-other, first_dead-alive, first_dead-dead}

unfoldable pub one : Bool → ℕ
one true = 1
one false = 0

-- How many of the first slots are alive.
unfoldable pub count : ℕ → (ℕ → Bool) → ℕ
count zero alive = 0
count (suc n) alive = count n alive + one (alive n)

-- The counter is the number of the live slots, and the slots to look at are in the array.
abbrev pub IsCounted : Recvers → Type 0
IsCounted r =
    (r.alive_recvers_num ≡ count max_senders_num r.is_alive) × (r.senders_num ≤ max_senders_num)

count-le : (n : ℕ) (alive : ℕ → Bool) → count n alive ≤ n
unfolding count one
count-le zero alive = omega arith
count-le (suc n) alive =
    let rest = count-le n alive in
    elim (Bool-cases (alive n)) [
      | inl live ↦ rw live (omega arith)
      | inr dead ↦ rw dead (omega arith)
    ]

count-same :
    (n i : ℕ) (b : Bool) (alive : ℕ → Bool) → n ≤ i → count n (array_set alive i b) ≡ count n alive
unfolding count
count-same zero i b alive le = refl
count-same (suc n) i b alive le =
    let rest = count-same n i b alive (omega arith) in
    rw (rest, array_set-other alive i b n (omega arith)) refl

-- One slot changes.
count-array_set :
    (n i : ℕ) (b : Bool) (alive : ℕ → Bool)
    → i < n
    → count n (array_set alive i b) + one (alive i) ≡ count n alive + one b
unfolding count
count-array_set zero i b alive lt = absurd (omega arith)
count-array_set (suc n) i b alive lt = elim (ℕ_discrete i n) [
  | yes same ↦
      let rest = count-same n i b alive (omega arith) in
      let here : one (array_set alive i b n) ≡ one b =
        ap one (subst (λ n. array_set alive i b n ≡ b) same (array_set-same alive i b)) in
      let there : one (alive i) ≡ one (alive n) = ap (λ k. one (alive k)) same in omega arith
  | no other ↦
      let rest = count-array_set n i b alive (omega arith) in
      let here : one (array_set alive i b n) ≡ one (alive n) =
        ap one (array_set-other alive i b n other) in
      omega arith
]

counter_up :
    (a c d e : ℕ) → a ≡ c → d ≡ one false → e + d ≡ c + one true → e ≤ 255 → (a + 1) % 2 ^ 32 ≡ e
unfolding one
counter_up a c d e h k s le = omega arith

counter_down :
    (a c d e : ℕ)
    → a ≡ c
    → d ≡ one true
    → e + d ≡ c + one false
    → c ≤ 255
    → (a + (2 ^ 32 - 1)) % 2 ^ 32 ≡ e
unfolding one
counter_down a c d e h k s le = omega arith

-- A request to join where a slot is dead keeps the counter right.
pub recver_joins-IsCounted :
    (own_pid p k : ℕ) (r : Recvers)
    → k < max_senders_num
    → r.is_alive k ≡ false
    → IsCounted r
    → IsCounted (recver_joins own_pid p r).0
unfolding recver_joins
recver_joins-IsCounted own_pid p k r lt dead (counted, le) =
    let i = first_dead max_senders_num 0 r.is_alive in
    let (low, high, before) = first_dead-alive max_senders_num 0 r.is_alive in
    let room : i < max_senders_num =
      (let out : ¬ (k < i) =
          λ h. (let e : false ≡ true = sym dead ∙ before k (omega arith) h in ground arith) in
        omega arith) in
    let full : (i == max_senders_num) ≡ false =
      ne→== i max_senders_num (λ e. absurd (omega arith)) in
    let was : one (r.is_alive i) ≡ one false =
      ap one (first_dead-dead max_senders_num 0 r.is_alive (omega arith)) in
    let sum = count-array_set max_senders_num i true r.is_alive room in
    let bound = count-le max_senders_num (array_set r.is_alive i true) in
    rw full (counter_up _ _ _ _ counted was sum bound, omega arith)

-- The slot that the loop of a leave finds.
clear-finds :
    (n i p k : ℕ) (r : Recvers)
    → i ≤ k
    → k < i + n
    → i + n ≤ max_senders_num
    → r.pid k ≡ p
    → (j : ℕ) × (i ≤ j)
      × (j < i + n)
      × (r.pid j ≡ p)
      × (clear n i p r ≡ some (record r { is_alive = array_set r.is_alive j false }))
unfolding clear
clear-finds zero i p k r a b le e = absurd (omega arith)
clear-finds (suc n) i p k r a b le e =
    let inside = lt→ltb i max_senders_num (omega arith) in
    elim (ℕ_discrete (r.pid i) p) [
      | yes here ↦ (i, omega arith, omega arith, here, rw (inside, eq→== (r.pid i) p here) refl)
      | no other ↦
          let past : i ≢ k = λ s. other (ap r.pid s ∙ e) in
          let (j, low, high, same, run) =
            clear-finds n (i + 1) p k r (omega arith) (omega arith) (omega arith) e in
          (j, omega arith, omega arith, same, rw (inside, ne→== (r.pid i) p other) run)
    ]

-- A receiver that leaves, where its pid stands in a slot to look at and in no dead one, frees a slot
-- with its pid and keeps the counter right.
pub recver_leaves-IsCounted :
    (p k : ℕ) (r : Recvers)
    → IsCounted r
    → k < r.senders_num
    → r.pid k ≡ p
    → ((j : ℕ) → j < r.senders_num → r.pid j ≡ p → r.is_alive j ≡ true)
    → (r' : Recvers) × (recver_leaves p r ≡ some r')
      × IsCounted r'
      × (j : ℕ) × (r.pid j ≡ p)
      × (r'.is_alive ≡ array_set r.is_alive j false)
      × (r'.pid ≡ r.pid)
unfolding recver_leaves
recver_leaves-IsCounted p k r (counted, le) lt e live =
    let (j, low, high, same, run) =
      clear-finds r.senders_num 0 p k r (omega arith) (omega arith) (omega arith) e in
    let was : one (r.is_alive j) ≡ one true = ap one (live j (omega arith) same) in
    let sum = count-array_set max_senders_num j false r.is_alive (omega arith) in
    let bound = count-le max_senders_num r.is_alive in
    (
      record r {
        is_alive = array_set r.is_alive j false;
        alive_recvers_num = (r.alive_recvers_num + (2 ^ 32 - 1)) % 2 ^ 32;
      },
      rw (recver_leaves, run) refl,
      (counter_down _ _ _ _ counted was sum bound, le),
      j,
      same,
      refl,
      refl,
    )
