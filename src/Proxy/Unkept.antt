-- ===== src/Proxy/Unkept.antt =====
-- A resource that is not kept, since its status is not 200.
use sys_prog.Prelude.{
  ℕ, zero, suc, ◌-◌, ◌≡◌, refl, ◌∙◌, false, Option, none, some, List, [], ◌∷◌, ◌==◌, length, negsuc,
}
use sys_prog.Proxy.Request.{PicoHttpResponse}
use sys_prog.Proxy.Pieces.{Pieces, new_pieces, push_data, pop_first}
use sys_prog.Proxy.Client.{
  Client, left, fill, buffer_sent, next_popped, send_resource, response_parsed, is_ok,
  receive_resource, end_download,
}
use sys_prog.Proxy.Download.{announced, receives}

-- With no pieces and no kept resource, sendResource does nothing, whatever is left of the buffer.
send_resource-empty :
    (s : Option ℕ) (c : Client) (d : Pieces)
    → d.delete_request ≡ false
    → length d.pieces ≡ 0
    → send_resource s c d ≡ ((left 0, [], c), d)
unfolding send_resource
send_resource-empty s c d whole empty = simp (whole, empty) refl

buffer_sent-same : (s : Option ℕ) (c : Client) → (buffer_sent s c).2.position ≡ c.position
unfolding buffer_sent
buffer_sent-same none c = refl
buffer_sent-same (some zero) c = refl
buffer_sent-same (some (suc n)) c = refl

next_popped-first :
    (s : Option ℕ) (c : Client) (d : Pieces) (p : List ℕ) (ps : List (List ℕ))
    → d.pieces ≡ p ∷ ps
    → next_popped s c d ≡ (buffer_sent s (fill p c), record d { pieces = ps })
unfolding next_popped pop_first
next_popped-first s c d p ps h = rw h refl

send_resource-next_popped :
    (s : Option ℕ) (c : Client) (d : Pieces)
    → d.delete_request ≡ false
    → (length d.pieces == 0) ≡ false
    → c.current_buffer_length - c.current_buffer_rest ≡ 0
    → c.position ≡ none
    → send_resource s c d ≡ next_popped s c d
unfolding send_resource
send_resource-next_popped s c d whole filled empty at = simp (whole, filled, empty, at) refl

send_resource-popped :
    (s : Option ℕ) (c : Client) (d : Pieces) (p : List ℕ)
    → d.delete_request ≡ false
    → d.pieces ≡ p ∷ []
    → c.current_buffer_length - c.current_buffer_rest ≡ 0
    → c.position ≡ none
    → send_resource s c d ≡ (buffer_sent s (fill p c), record d { pieces = [] })
send_resource-popped s c d p whole one empty at =
    send_resource-next_popped s c d whole (rw one refl) empty at ∙ next_popped-first s c d p [] one

-- A response that is not kept, announces no length, and has come whole with its header: after the
-- first call of sendResource, whatever that has sent of it, each further call sends nothing, changes
-- nothing and gives 0, so that the connection of the client is never finished with.
pub response_parsed-unkept :
    (r : PicoHttpResponse) (c : Client) (s s' : Option ℕ)
    → is_ok c.response_status ≡ false
    → announced r ≡ negsuc 0
    → c.current_buffer_length - c.current_buffer_rest ≡ 0
    → (let first = send_resource s (response_parsed r c).0 (receives [] (response_parsed r c).1) in
        send_resource s' first.0.2 first.1 ≡ ((left 0, [], first.0.2), first.1))
unfolding receives receive_resource end_download response_parsed push_data new_pieces
response_parsed-unkept r c s s' other no_length empty =
    let c' = (response_parsed r c).0 in
    let d = receives [] (response_parsed r c).1 in
    let whole : d.delete_request ≡ false = rw no_length refl in
    let one : d.pieces ≡ r.buffered ∷ [] = rw no_length refl in
    let at : c'.position ≡ none = rw other refl in
    let once = send_resource-popped s c' d r.buffered whole one empty at in
    rw once (
      send_resource-empty s' (buffer_sent s (fill r.buffered c')).2 (record d { pieces = [] }) whole
        refl)
