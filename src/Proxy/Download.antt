-- ===== src/Proxy/Download.antt =====
-- What the proxy keeps of a resource, and when it takes it for complete.
use sys_prog.Prelude.{
  ℕ, ◌+◌, ◌≤◌, ◌<◌, ◌≡◌, refl, sym, ap, ◌∙◌, Bool, true, false, ◌&&◌, not, none, some, List, [],
  ◌∷◌, ◌++◌, leb, ltb, if◌then◌else◌, length, arith, append_assoc, append-nil, length-append, ℤ,
  pos, negsuc, Bool-cases, inl, inr,
}
use sys_prog.Proxy.Text.{atoi}
use sys_prog.Proxy.Request.{PicoHttpResponse, get_content_length, is_none}
use sys_prog.Proxy.Pieces.{Pieces, new_pieces, push_data, is_full, positive, le_length}
use sys_prog.Proxy.Client.{Client, receive_resource, end_download, response_parsed}

abbrev pub concat : List (List ℕ) → List ℕ
concat [] = []
concat (p ∷ ps) = p ++ concat ps

pub concat-append : (ps qs : List (List ℕ)) → concat (ps ++ qs) ≡ concat ps ++ concat qs
concat-append [] qs = refl
concat-append (p ∷ ps) qs =
    ap (λ t. p ++ t) (concat-append ps qs) ∙ sym (append_assoc p (concat ps) (concat qs))

-- getResource for what recv gives, one call after another, and once more at the end.
unfoldable pub receives : List (List ℕ) → Pieces → Pieces
receives [] d = (receive_resource none d).1
receives (p ∷ ps) d = receives ps (receive_resource (some p) d).1

unfoldable pub NoneEmpty : List (List ℕ) → Type 0
NoneEmpty [] = Unit
NoneEmpty (p ∷ ps) = (0 < length p) × NoneEmpty ps

-- Whether less has come than the header has announced.
abbrev pub too_short : ℤ → ℕ → Bool
too_short e n = positive e && not (le_length e n)

record Kept (text : List ℕ) (e : ℤ) (d : Pieces) : Type 0 where
  whole : concat d.pieces ≡ text
  size : d.current_length ≡ length text
  same : d.expected_length ≡ e
  complete : d.coherence ≡ not (too_short e (length text))
  broken : d.delete_request ≡ too_short e (length text)

ends-Kept :
    (text : List ℕ) (e : ℤ) (d : Pieces)
    → concat d.pieces ≡ text
    → d.current_length ≡ length text
    → d.expected_length ≡ e
    → d.coherence ≡ false
    → d.delete_request ≡ false
    → Kept text e (end_download d)
unfolding end_download is_full
ends-Kept text e d w s x c b =
    let test : (positive d.expected_length && not (le_length d.expected_length d.current_length))
        ≡ too_short e (length text) =
      rw (x, s) refl in
    elim (Bool-cases (too_short e (length text))) [
      | inl short ↦
          rw (test, short)
            (record {
              whole = w;
              size = s;
              same = x;
              complete = c ∙ ap not (sym short);
              broken = sym short;
            })
      | inr long ↦
          rw (test, long)
            (record {
              whole = w;
              size = s;
              same = x;
              complete = ap not (sym long);
              broken = b ∙ sym long;
            })
    ]

receives-Kept :
    (ps : List (List ℕ)) (text : List ℕ) (e : ℤ) (d : Pieces)
    → NoneEmpty ps
    → concat d.pieces ≡ text
    → d.current_length ≡ length text
    → d.expected_length ≡ e
    → d.coherence ≡ false
    → d.delete_request ≡ false
    → Kept (text ++ concat ps) e (receives ps d)
unfolding receives receive_resource NoneEmpty push_data
receives-Kept [] text e d ne w s x c b = rw (append-nil text) (ends-Kept text e d w s x c b)
receives-Kept ([] ∷ ps) text e d ne w s x c b = absurd (let pos = ne.0 in omega arith)
receives-Kept ((q ∷ qs) ∷ ps) text e d ne w s x c b =
    rw⁻¹ (append_assoc text (q ∷ qs) (concat ps)) (
      receives-Kept ps (text ++ q ∷ qs) e (push_data (q ∷ qs) d) ne.1
        (concat-append d.pieces ((q ∷ qs) ∷ []) ∙ rw (w, append-nil (q ∷ qs)) refl)
        (let sum = length-append text (q ∷ qs) in omega arith) x c b)

-- The length that a response announces, -1 where it announces none.
abbrev pub announced : PicoHttpResponse → ℤ
announced r = if is_none (get_content_length r) then negsuc 0 else atoi (get_content_length r)

-- The pieces of a response, its header with what came with it and what recv gives until it ends: they
-- make up all that has been received, and the resource is taken for complete, and not for broken,
-- unless a positive length is announced that all of this, the header included, does not have.
pub response_parsed-receives :
    (r : PicoHttpResponse) (c : Client) (ps : List (List ℕ))
    → NoneEmpty ps
    → (let d = receives ps (response_parsed r c).1 in
        (concat d.pieces ≡ r.buffered ++ concat ps)
        × (d.current_length ≡ length (r.buffered ++ concat ps))
        × (d.coherence ≡ not (too_short (announced r) (length (r.buffered ++ concat ps))))
        × (d.delete_request ≡ too_short (announced r) (length (r.buffered ++ concat ps))))
unfolding response_parsed push_data new_pieces
response_parsed-receives r c ps ne =
    let kept =
      receives-Kept ps r.buffered (announced r) (response_parsed r c).1 ne (append-nil r.buffered)
        (omega arith) refl refl refl in
    (kept.whole, kept.size, kept.complete, kept.broken)

enough_long : (n m : ℕ) → leb n m ≡ true → not (too_short (pos n) m) ≡ true
enough_long n m h = elim (Bool-cases (ltb 0 n)) [
  | inl long ↦ rw (long, h) refl
  | inr empty ↦ rw empty refl
]

-- A response whose header came with the beginning of its body: a body that breaks off before its
-- announced length is taken for complete where the header is at least as long as what is missing.
pub receives-truncated :
    (r : PicoHttpResponse) (c : Client) (header early : List ℕ) (ps : List (List ℕ)) (n : ℕ)
    → NoneEmpty ps
    → r.buffered ≡ header ++ early
    → announced r ≡ pos n
    → length (early ++ concat ps) < n
    → n ≤ length header + length (early ++ concat ps)
    → (receives ps (response_parsed r c).1).coherence ≡ true
receives-truncated r c header early ps n ne split e short long =
    let (whole, size, complete, broken) = response_parsed-receives r c ps ne in
    let sum = length-append r.buffered (concat ps) in
    let sum' = length-append early (concat ps) in
    let sum'' : length r.buffered ≡ length header + length early =
      ap length split ∙ length-append header early in
    let enough : leb n (length (r.buffered ++ concat ps)) ≡ true = ground arith in
    complete ∙ rw e (enough_long n (length (r.buffered ++ concat ps)) enough)
