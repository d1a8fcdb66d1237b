-- ===== src/Proxy/Asking.antt =====
-- The request reaches the server whole, however `send` cuts it.
use sys_prog.Prelude.{
  ℕ, zero, suc, ◌+◌, ◌-◌, ◌<◌, ◌≡◌, refl, ◌∙◌, true, false, ◌||◌, some, List, [], ◌∷◌, ◌++◌, ◌==◌,
  take, drop, length, arith, take-drop_append, drop-drop, take-of_le, append-nil, length-drop,
}
use sys_prog.Proxy.Request.{PicoHttpRequest, get_resource, get_host_name, is_none}
use sys_prog.Proxy.Client.{
  Client, request, response, Code, left, request_text, request_sent, send_request, empty_response,
}

-- sendRequest for as long as select says so: what `send` takes each time.
unfoldable pub asks : List ℕ → Client → List ℕ × Client
asks [] c = ([], c)
asks (n ∷ ns) c =
    let once = send_request (some n) c in let rest = asks ns once.2 in (once.1 ++ rest.0, rest.1)

asks-next :
    (n : ℕ) (ns : List ℕ) (c : Client) {code : Code} {bytes : List ℕ} {c' : Client}
    → send_request (some n) c ≡ (code, bytes, c')
    → asks (n ∷ ns) c ≡ (bytes ++ (asks ns c').0, (asks ns c').1)
unfolding asks
asks-next n ns c e = rw e refl

asks-end : (c : Client) → asks [] c ≡ ([], c)
unfolding asks
asks-end c = refl

unfoldable pub sum : List ℕ → ℕ
sum [] = 0
sum (n ∷ ns) = n + sum ns

unfoldable pub AllPositive : List ℕ → Type 0
AllPositive [] = Unit
AllPositive (n ∷ ns) = (0 < n) × AllPositive ns

-- The request names a resource and a host.
abbrev pub IsKnown : PicoHttpRequest → Type 0
IsKnown r = (is_none (get_resource r) || is_none (get_host_name r)) ≡ false

abbrev pub asked : Client → PicoHttpRequest → ℕ → Client
asked c r k = record c { http_header = request r; current_buffer_rest = k }

abbrev pub answered : Client → Client
answered c = record c { http_header = response empty_response; current_buffer_rest = 0 }

module _ (r : PicoHttpRequest) (known : IsKnown r) where
  send_request-sent :
      (c : Client) (k n : ℕ)
      → send_request (some n) (asked c r k) ≡ request_sent (request_text r) (some n) (asked c r k)
  unfolding send_request
  send_request-sent c k n = rw known refl

  request_sent-last :
      (c : Client) (k n : ℕ)
      → 0 < n
      → k + n ≡ length (request_text r)
      → request_sent (request_text r) (some n) (asked c r k)
        ≡ (left 0, drop k (request_text r), answered c)
  unfolding request_sent
  request_sent-last c k zero pos e = absurd (omega arith)
  request_sent-last c k (suc n) pos e =
      let size = length-drop k (request_text r) in
      let none_left : (length (drop k (request_text r)) - suc n == 0) ≡ true = ground arith in
      let whole = take-of_le (suc n) (drop k (request_text r)) (omega arith) in
      rw (none_left, whole) refl

  request_sent-more :
      (c : Client) (k n : ℕ)
      → 0 < n
      → k + n < length (request_text r)
      → (l : ℕ) × (request_sent (request_text r) (some n) (asked c r k)
          ≡ (left l, take n (drop k (request_text r)), asked c r (k + n)))
  unfolding request_sent
  request_sent-more c k zero pos e = absurd (omega arith)
  request_sent-more c k (suc n) pos e =
      let size = length-drop k (request_text r) in
      let some_left : (length (drop k (request_text r)) - suc n == 0) ≡ false = ground arith in
      (length (drop k (request_text r)) - suc n, rw some_left refl)

  -- However many calls of sendRequest it takes, with whatever `send` takes each time: together they
  -- send the request from where they begin to its end, and then the client waits for the response.
  pub asks-request_text :
      (ns : List ℕ) (n k : ℕ) (c : Client)
      → AllPositive (n ∷ ns)
      → k + sum (n ∷ ns) ≡ length (request_text r)
      → asks (n ∷ ns) (asked c r k) ≡ (drop k (request_text r), answered c)
  unfolding sum AllPositive
  asks-request_text [] n k c (pos, _) e =
      let last = send_request-sent c k n ∙ request_sent-last c k n pos (omega arith) in
      asks-next n [] (asked c r k) last
      ∙ rw (asks-end (answered c), append-nil (drop k (request_text r))) refl
  asks-request_text (m ∷ ms) n k c (pos, more) e =
      let (l, once) = request_sent-more c k n pos (let m_pos = more.0 in omega arith) in
      let rest = asks-request_text ms m (k + n) c more (omega arith) in
      let whole = take-drop_append n (drop k (request_text r)) in
      asks-next n (m ∷ ms) (asked c r k) (send_request-sent c k n ∙ once)
      ∙ rw (rest, ← drop-drop k n (request_text r), whole) refl
