-- ===== src/Proxy/Delivery.antt =====
-- What a client is sent of a resource.
use sys_prog.Prelude.{
  ℕ, zero, suc, ◌+◌, ◌-◌, ◌≤◌, ◌<◌, ◌≡◌, refl, sym, ap, subst, ◌∙◌, true, false, Option, none, some,
  List, [], ◌∷◌, ◌++◌, ◌==◌, if◌then◌else◌, take, drop, length, get_elem?, arith, append_assoc,
  append-nil, take-drop_append, take-of_le, drop-drop, Bool-cases, Option-cases, ◌⊎◌, inl, inr,
  length-drop,
}
use sys_prog.Proxy.Pieces.{Pieces}
use sys_prog.Proxy.Client.{
  Client, Code, failed, left, fill, no_piece, buffer_sent, next_cached, send_resource,
}
use sys_prog.Proxy.Download.{concat}

-- A client at a position has been sent the pieces before it, without the rest of its buffer.
pub record Reading (sent : List ℕ) (c : Client) (ps : List (List ℕ)) (i : ℕ) : Type 0 where
  pub at_piece : c.position ≡ some i
  pub in_pieces : i ≤ length ps
  pub sized : c.current_buffer_length ≡ length c.buffer
  pub in_buffer : c.current_buffer_rest ≤ length c.buffer
  pub sent_so_far : sent ++ drop c.current_buffer_rest c.buffer ≡ concat (take i ps)

-- The bytes that sendResource gives to `send`.
unfoldable pub offered : Client → Pieces → List ℕ
offered c d =
    if c.current_buffer_length - c.current_buffer_rest == 0
    then elim c.position [
      | none ↦ elim d.pieces [ [] ↦ [] | p ∷ ps ↦ p ]
      | some i ↦ elim (get_elem? d.pieces i) [ none ↦ [] | some p ↦ p ]
    ]
    else drop c.current_buffer_rest c.buffer

-- `send` takes no more than it is given.
abbrev pub IsTaken : Option ℕ → List ℕ → Type 0
IsTaken none bytes = Unit
IsTaken (some n) bytes = n ≤ length bytes

buffer_sent-Reading :
    (sent : List ℕ) (c : Client) (ps : List (List ℕ)) (i : ℕ) (s : Option ℕ)
    → Reading sent c ps i
    → IsTaken s (drop c.current_buffer_rest c.buffer)
    → Reading (sent ++ (buffer_sent s c).1) (buffer_sent s c).2 ps i
unfolding buffer_sent
buffer_sent-Reading sent c ps i none r t = rw (append-nil sent) r
buffer_sent-Reading sent c ps i (some zero) r t = rw (append-nil sent) r
buffer_sent-Reading sent c ps i (some (suc n)) r t = record {
  at_piece = r.at_piece;
  in_pieces = r.in_pieces;
  sized = r.sized;
  in_buffer =
      let size = length-drop c.current_buffer_rest c.buffer in
      let room = r.in_buffer in omega arith;
  sent_so_far =
      append_assoc sent (take (suc n) (drop c.current_buffer_rest c.buffer))
        (drop (c.current_buffer_rest + suc n) c.buffer)
      ∙ rw
          (
            ← drop-drop c.current_buffer_rest (suc n) c.buffer,
            take-drop_append (suc n) (drop c.current_buffer_rest c.buffer),
          )
          r.sent_so_far;
}

take-suc :
    (ps : List (List ℕ)) (i : ℕ) {p : List ℕ}
    → get_elem? ps i ≡ some p
    → (i < length ps) × (concat (take (i + 1) ps) ≡ concat (take i ps) ++ p)
take-suc [] i h = absurd (ground arith)
take-suc (q ∷ ps) zero {p} h = (omega arith, append-nil q ∙ ground arith)
take-suc (q ∷ ps) (suc i) {p} h =
    let (less, e) = take-suc ps i h in
    let next : suc i + 1 ≡ suc (i + 1) = omega arith in
    (omega arith, rw next (ap (λ t. q ++ t) e ∙ sym (append_assoc q (concat (take i ps)) p)))

get_elem?-length : (ps : List (List ℕ)) (i : ℕ) → get_elem? ps i ≡ none → length ps ≤ i
get_elem?-length [] i h = omega arith
get_elem?-length (q ∷ ps) zero h = absurd (ground arith)
get_elem?-length (q ∷ ps) (suc i) h = let le = get_elem?-length ps i h in omega arith

drop-all : (n : ℕ) (xs : List ℕ) → length xs ≤ n → drop n xs ≡ []
drop-all zero [] h = refl
drop-all (suc n) [] h = refl
drop-all zero (x ∷ xs) h = absurd (omega arith)
drop-all (suc n) (x ∷ xs) h = drop-all n xs (omega arith)

-- The whole buffer has been sent.
emptied :
    (c : Client)
    → c.current_buffer_length ≡ length c.buffer
    → c.current_buffer_length - c.current_buffer_rest ≡ 0
    → drop c.current_buffer_rest c.buffer ≡ []
emptied c e h = drop-all c.current_buffer_rest c.buffer (omega arith)

fill-Reading :
    (sent : List ℕ) (c : Client) (ps : List (List ℕ)) (i : ℕ) {p : List ℕ}
    → Reading sent c ps i
    → drop c.current_buffer_rest c.buffer ≡ []
    → get_elem? ps i ≡ some p
    → Reading sent (record (fill p c) { position = some (i + 1) }) ps (i + 1)
fill-Reading sent c ps i {p} r empty e =
    let (less, all) = take-suc ps i e in
    record {
      at_piece = refl;
      in_pieces = omega arith;
      sized = refl;
      in_buffer = omega arith;
      sent_so_far = ap (λ t. t ++ p) (sym (append-nil sent) ∙ rw⁻¹ empty r.sent_so_far) ∙ sym all;
    }

-- What a call of sendResource does for a client at a position: nothing, on with the buffer, or on
-- with the next piece.
data Turn (s : Option ℕ) (c : Client) (d : Pieces) (i : ℕ) : Type 0 where
  nothing :
      (code : Code)
      → send_resource s c d ≡ ((code, [], c), d)
      → (code ≡ failed
          → (d.delete_request ≡ true)
            ⊎ ((d.coherence ≡ true)
                × (length d.pieces ≤ i)
                × (c.current_buffer_length - c.current_buffer_rest ≡ 0)))
      → Turn s c d i
  on :
      send_resource s c d ≡ (buffer_sent s c, d)
      → offered c d ≡ drop c.current_buffer_rest c.buffer
      → Turn s c d i
  next :
      (p : List ℕ)
      → get_elem? d.pieces i ≡ some p
      → c.current_buffer_length - c.current_buffer_rest ≡ 0
      → send_resource s c d ≡ (buffer_sent s (record (fill p c) { position = some (i + 1) }), d)
      → offered c d ≡ p
      → Turn s c d i

ended_no_piece : (d : Pieces) → no_piece d ≡ failed → d.coherence ≡ true
ended_no_piece d h = elim (Bool-cases d.coherence) [
  | inl ended ↦ ended
  | inr running ↦ absurd (let e : left 0 ≡ failed = sym (rw running refl) ∙ h in ground arith)
]

send_resource-next :
    (s : Option ℕ) (c : Client) (d : Pieces) (i : ℕ)
    → d.delete_request ≡ false
    → (length d.pieces == 0) ≡ false
    → (c.current_buffer_length - c.current_buffer_rest == 0) ≡ true
    → c.position ≡ some i
    → send_resource s c d ≡ next_cached s i c d
unfolding send_resource
send_resource-next s c d i whole filled empty at = simp (whole, filled, empty, at) refl

turn : (s : Option ℕ) (c : Client) (d : Pieces) (i : ℕ) → c.position ≡ some i → Turn s c d i
unfolding send_resource offered next_cached
turn s c d i at = elim (Bool-cases d.delete_request) [
  | inl broken ↦ nothing failed (rw broken refl) (λ e. inl broken)
  | inr whole ↦ elim (Bool-cases (length d.pieces == 0)) [
    | inl empty ↦ nothing (left 0) (rw (whole, empty) refl) (λ e. absurd (ground arith))
    | inr filled ↦ elim (Bool-cases (c.current_buffer_length - c.current_buffer_rest == 0)) [
      | inr rest ↦ on (rw (whole, filled, rest) refl) (rw rest refl)
      | inl empty ↦ elim (Option-cases (get_elem? d.pieces i)) [
        | inl end ↦
            nothing (no_piece d)
              (send_resource-next s c d i whole filled empty at ∙ rw (next_cached, end) refl)
              (λ e. inr (ended_no_piece d e, get_elem?-length d.pieces i end, ground arith))
        | inr (p, piece) ↦
            next p piece (ground arith)
              (send_resource-next s c d i whole filled empty at ∙ rw (next_cached, piece) refl)
              (simp (empty, at, piece) refl)
      ]
    ]
  ]
]

-- A call of sendResource for a client that is sent a kept resource, whatever `send` takes of what it
-- is offered: the pieces stay, and the client has again been sent exactly the pieces before its
-- position but for the rest of its buffer.
pub send_resource-Reading :
    (s : Option ℕ) (sent : List ℕ) (c : Client) (d : Pieces) (i : ℕ)
    → Reading sent c d.pieces i
    → IsTaken s (offered c d)
    → (j : ℕ) × Reading (sent ++ (send_resource s c d).0.1) (send_resource s c d).0.2 d.pieces j
      × ((send_resource s c d).1 ≡ d)
send_resource-Reading s sent c d i r t = elim (turn s c d i r.at_piece) [
  | nothing code e h ↦ rw (e, append-nil sent) (i, r, refl)
  | on e o ↦ rw e (i, buffer_sent-Reading sent c d.pieces i s r (subst (IsTaken s) o t), refl)
  | next p piece done e o ↦ rw e (
    i + 1,
    buffer_sent-Reading sent (record (fill p c) { position = some (i + 1) }) d.pieces (i + 1) s
        (fill-Reading sent c d.pieces i r (emptied c r.sized done) piece) (subst (IsTaken s) o t),
    refl,
  )
]

buffer_sent-failed :
    (s : Option ℕ) (c : Client) → (buffer_sent s c).0 ≡ failed → (s ≡ none) ⊎ (s ≡ some 0)
unfolding buffer_sent
buffer_sent-failed none c h = inl refl
buffer_sent-failed (some zero) c h = inr refl
buffer_sent-failed (some (suc n)) c h = absurd (ground arith)

-- The client is told to be finished with, by -1, only where the resource is broken, `send` has sent
-- nothing, or the whole resource has been downloaded and sent.
pub send_resource-failed :
    (s : Option ℕ) (sent : List ℕ) (c : Client) (d : Pieces) (i : ℕ)
    → Reading sent c d.pieces i
    → (send_resource s c d).0.0 ≡ failed
    → (d.delete_request ≡ true)
      ⊎ ((s ≡ none) ⊎ (s ≡ some 0))
      ⊎ ((d.coherence ≡ true) × (sent ≡ concat d.pieces))
send_resource-failed s sent c d i r f = elim (turn s c d i r.at_piece) [
  | nothing code e h ↦ elim (h (sym (ap (λ x. x.0.0) e) ∙ f)) [
    | inl broken ↦ inl broken
    | inr (ended, all, done) ↦ inr (
        inr (
          ended,
          sym (append-nil sent)
              ∙ rw⁻¹ (emptied c r.sized done) r.sent_so_far
              ∙ ap concat (take-of_le i d.pieces all),
        ))
  ]
  | on e o ↦ inr (inl (buffer_sent-failed s c (sym (ap (λ x. x.0.0) e) ∙ f)))
  | next p piece done e o ↦ inr (inl (buffer_sent-failed s _ (sym (ap (λ x. x.0.0) e) ∙ f)))
]
