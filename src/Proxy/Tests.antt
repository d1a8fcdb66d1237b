-- ===== src/Proxy/Tests.antt =====
-- A request for http://ab.c/x, and a response of two bytes of body behind a header of two.
use sys_prog.Prelude.{
  ℕ, ◌≡◌, refl, true, not, none, some, [], ◌∷◌, ◌++◌, drop, arith, ◌⊎◌, codes, pos,
}
use sys_prog.Proxy.Text.{find, find_char, atoi, digits_value}
use sys_prog.Proxy.Request.{
  PicoHttpRequest, PicoHttpResponse, get_resource, get_url, get_host_name, host_of, resource_of,
  get_header, get_user_headers, header_lines, get_content_length, is_none,
}
use sys_prog.Proxy.Pieces.{Pieces, new_pieces}
use sys_prog.Proxy.Client.{
  Client, left, new_client, request_text, parse_hostname, response_parsed, send_resource,
  next_cached,
}
use sys_prog.Proxy.Asking.{sum, AllPositive, asks, answered, asked, asks-request_text}
use sys_prog.Proxy.Download.{
  NoneEmpty, concat, receives, announced, too_short, response_parsed-receives, receives-truncated,
}
use sys_prog.Proxy.Delivery.{Reading, offered, send_resource-Reading, send_resource-failed}
use sys_prog.Proxy.Unkept.{response_parsed-unkept}

abbrev x_of_ab : PicoHttpRequest
x_of_ab = record {
  buffered = [];
  method = some (codes "GET");
  path = some (codes "http://ab.c/x");
  headers = (record { name = codes "Host"; value = codes "ab.c" }) ∷ [];
}

parse_hostname_test : parse_hostname (codes "ab.c:8080") ≡ (codes "ab.c", 8080)
unfolding parse_hostname find_char atoi digits_value
parse_hostname_test = refl

-- Twenty bytes, and then the other thirty.
asks-request_text_example :
    asks (20 ∷ 30 ∷ []) (asked new_client x_of_ab 0)
    ≡ (drop 0 (request_text x_of_ab), answered new_client)
unfolding request_text get_resource get_url get_host_name host_of resource_of get_header
    get_user_headers header_lines is_none find sum AllPositive
asks-request_text_example =
    asks-request_text x_of_ab refl (30 ∷ []) 20 0 new_client (omega arith, (omega arith, tt)) refl

abbrev ok_of_five : PicoHttpResponse
ok_of_five = record {
  buffered = 1 ∷ 2 ∷ 3 ∷ [];
  status = 200;
  headers = (record { name = codes "Content-Length"; value = codes "5" }) ∷ [];
}

abbrev missing : PicoHttpResponse
missing = record { buffered = 1 ∷ 2 ∷ 3 ∷ []; status = 404; headers = [] }

abbrev ok_read : Client
ok_read = record new_client { response_status = pos 200 }

response_parsed-receives_example :
    (let d = receives ((4 ∷ []) ∷ []) (response_parsed ok_of_five ok_read).1 in
      (concat d.pieces ≡ 1 ∷ 2 ∷ 3 ∷ 4 ∷ [])
      × (d.current_length ≡ 4)
      × (d.coherence ≡ not (too_short (announced ok_of_five) 4))
      × (d.delete_request ≡ too_short (announced ok_of_five) 4))
unfolding NoneEmpty
response_parsed-receives_example =
    response_parsed-receives ok_of_five ok_read ((4 ∷ []) ∷ []) (omega arith, tt)

-- Five bytes are announced, and three have come behind a header of two.
receives-truncated_example :
    (receives ((4 ∷ 5 ∷ []) ∷ []) (response_parsed ok_of_five ok_read).1).coherence ≡ true
unfolding NoneEmpty get_content_length get_header is_none atoi digits_value
receives-truncated_example =
    receives-truncated ok_of_five ok_read (1 ∷ 2 ∷ []) (3 ∷ []) ((4 ∷ 5 ∷ []) ∷ []) 5
      (omega arith, tt) refl refl (omega arith) (omega arith)

response_parsed-unkept_example :
    (let first =
        send_resource
          (some 2)
          (response_parsed missing new_client).0
          (receives [] (response_parsed missing new_client).1) in
      send_resource (some 1) first.0.2 first.1 ≡ ((left 0, [], first.0.2), first.1))
unfolding get_content_length get_header is_none new_client
response_parsed-unkept_example =
    response_parsed-unkept missing new_client (some 2) (some 1) refl refl refl

-- Two pieces that have come whole; a client that has been sent the first one.
abbrev two_pieces : Pieces
two_pieces = record new_pieces {
  pieces = (1 ∷ 2 ∷ []) ∷ (3 ∷ []) ∷ [];
  coherence = true;
  current_length = 3;
}

abbrev at_first : Client
at_first = record new_client {
  buffer = 1 ∷ 2 ∷ [];
  current_buffer_length = 2;
  current_buffer_rest = 1;
  position = some 1;
}

abbrev at_end : Client
at_end = record new_client {
  buffer = 3 ∷ [];
  current_buffer_length = 1;
  current_buffer_rest = 1;
  position = some 2;
}

at_first-Reading : Reading (1 ∷ []) at_first two_pieces.pieces 1
at_first-Reading = record {
  at_piece = refl;
  in_pieces = omega arith;
  sized = refl;
  in_buffer = omega arith;
  sent_so_far = refl;
}

at_end-Reading : Reading (1 ∷ 2 ∷ 3 ∷ []) at_end two_pieces.pieces 2
at_end-Reading = record {
  at_piece = refl;
  in_pieces = omega arith;
  sized = refl;
  in_buffer = omega arith;
  sent_so_far = refl;
}

send_resource-Reading_example :
    (j : ℕ) × Reading
      ((1 ∷ []) ++ (send_resource (some 1) at_first two_pieces).0.1)
      (send_resource (some 1) at_first two_pieces).0.2
      two_pieces.pieces
      j
    × ((send_resource (some 1) at_first two_pieces).1 ≡ two_pieces)
unfolding offered
send_resource-Reading_example =
    send_resource-Reading (some 1) (1 ∷ []) at_first two_pieces 1 at_first-Reading (omega arith)

abbrev one : ℕ
one = 1

send_resource-failed_example :
    (two_pieces.delete_request ≡ true)
    ⊎ ((some one ≡ none) ⊎ (some one ≡ some 0))
    ⊎ ((two_pieces.coherence ≡ true) × (1 ∷ 2 ∷ 3 ∷ [] ≡ concat two_pieces.pieces))
unfolding send_resource next_cached new_pieces
send_resource-failed_example =
    send_resource-failed (some one) (1 ∷ 2 ∷ 3 ∷ []) at_end two_pieces 2 at_end-Reading refl
