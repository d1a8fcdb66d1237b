-- ===== src/Proxy/Client.antt =====
-- Client.cpp and Client.h: a client of the proxy and the server that it asks. What recv, send,
-- connect and picohttpparser answer is an argument of the operation that calls them.
use sys_prog.Prelude.{
  ℕ, zero, suc, ◌+◌, ◌-◌, ◌%◌, ◌^◌, Bool, true, false, ◌&&◌, ◌||◌, not, Option, none, some, List,
  [], ◌∷◌, ◌++◌, ◌==◌, if◌then◌else◌, codes, take, drop, length, get_elem?, ℤ, pos, negsuc,
}
use sys_prog.Proxy.Text.{find_char, is_digit, atoi}
use sys_prog.Proxy.Request.{
  PicoHttpRequest, PicoHttpResponse, none_text, is_none, get_resource, get_url, get_host_name,
  get_user_headers, get_content_length, crlf,
}
use sys_prog.Proxy.Pieces.{Pieces, new_pieces, push_data, is_full, positive, pop_first}

-- The object that `http_header` points to.
pub data HttpHeader : Type 0 where
  no_header : HttpHeader
  request : PicoHttpRequest → HttpHeader
  response : PicoHttpResponse → HttpHeader

-- The fields of the object; `position` is data.second, with `none` for -1, and `buffer` is the piece
-- that current_data_buffer points to, of the length current_buffer_length.
pub record Client : Type 0 where
  pub http_header : HttpHeader
  pub requested_resource : List ℕ
  pub response_status : ℤ
  pub address_set : Bool
  pub buffer : List ℕ
  pub current_buffer_length : ℕ
  pub current_buffer_rest : ℕ
  pub position : Option ℕ
  pub delete_request : Bool

unfoldable pub new_client : Client
new_client = record {
  http_header = no_header;
  requested_resource = none_text;
  response_status = negsuc 0;
  address_set = false;
  buffer = [];
  current_buffer_length = 0;
  current_buffer_rest = 0;
  position = some 0;
  delete_request = false;
}

-- The results -1, -2, and how much is left.
pub data Code : Type 0 where
  failed : Code
  pending : Code
  left : ℕ → Code

abbrev pub empty_request : PicoHttpRequest
empty_request = record { buffered = []; method = none; path = none; headers = [] }

abbrev pub empty_response : PicoHttpResponse
empty_response = record { buffered = []; status = 0; headers = [] }

-- What comes of the bytes that have been received: recv fails or ends, or the parser finds an error,
-- a part of a header, or a header.
pub data Parsed (A : Type 0) : Type 0 where
  no_data : Parsed A
  malformed : Parsed A
  partial : A → Parsed A
  complete : A → Parsed A

abbrev pub read_request : Parsed PicoHttpRequest → Client → Code × Client
read_request no_data c = (failed, record c { http_header = no_header })
read_request malformed c = (failed, record c { http_header = no_header })
read_request (partial r) c = (pending, record c { http_header = request r })
read_request (complete r) c =
    (left 0, record c { http_header = request r; requested_resource = get_url r })

abbrev pub read_response : Parsed PicoHttpResponse → Client → Code × Client
read_response no_data c = (failed, record c { http_header = no_header })
read_response malformed c = (failed, record c { http_header = no_header })
read_response (partial r) c = (pending, record c { http_header = response r })
read_response (complete r) c =
    (left 0, record c { http_header = response r; response_status = pos r.status })

-- readHttpHeader, with what would come of reading on as a request or as a response.
unfoldable pub read_http_header :
    (PicoHttpRequest → Parsed PicoHttpRequest)
    → (PicoHttpResponse → Parsed PicoHttpResponse)
    → Client
    → Code × Client
read_http_header as_request as_response c = elim c.http_header [
  | no_header ↦ read_request (as_request empty_request) c
  | request r ↦ read_request (as_request r) c
  | response r ↦ read_response (as_response r) c
]

-- The text of the request to the resource server.
unfoldable pub request_text : PicoHttpRequest → List ℕ
request_text r =
    codes "GET "
    ++ get_resource r
    ++ codes " HTTP/1.1"
    ++ crlf
    ++ codes "Host: "
    ++ get_host_name r
    ++ crlf
    ++ codes "Connection: close"
    ++ crlf
    ++ (if not (is_none (get_user_headers r)) then get_user_headers r else [])
    ++ crlf

-- The end of sendRequest: the result of `send`, none where it is negative, and what it has sent.
unfoldable pub request_sent : List ℕ → Option ℕ → Client → Code × List ℕ × Client
request_sent text none c = (failed, [], c)
request_sent text (some zero) c = (failed, [], c)
request_sent text (some (suc n)) c =
    let rest = drop c.current_buffer_rest text in
    let c' = record c { current_buffer_rest = c.current_buffer_rest + suc n } in
    if length rest - suc n == 0
    then (
      left 0,
      take (suc n) rest,
      record c' { http_header = response empty_response; current_buffer_rest = 0 },
    )
    else (left (length rest - suc n), take (suc n) rest, c')

-- sendRequest; the header is a request where it is called.
unfoldable pub send_request : Option ℕ → Client → Code × List ℕ × Client
send_request sent c = elim c.http_header [
  | no_header ↦ (failed, [], c)
  | response r ↦ (failed, [], c)
  | request r ↦
      if is_none (get_resource r) || is_none (get_host_name r)
      then (failed, [], c)
      else request_sent (request_text r) sent c
]

-- The host and the port, of 16 bits; a negative port wraps.
abbrev pub port_of : ℤ → ℕ
port_of (pos n) = n % 2 ^ 16
port_of (negsuc n) = (2 ^ 16 - 1) - n % 2 ^ 16

unfoldable pub parse_hostname : List ℕ → List ℕ × ℕ
parse_hostname host = elim (find_char b':' host) [
  | none ↦ (host, 80)
  | some i ↦ (take i host, port_of (atoi (drop (i + 1) host)))
]

-- No character but digits and dots.
unfoldable pub is_dns_hostname : List ℕ → Bool
is_dns_hostname [] = true
is_dns_hostname (c ∷ cs) = (is_digit c || (c == b'.')) && is_dns_hostname cs

-- What the calls of connectResourceServer answer.
pub record Network : Type 0 where
  pub numeric_ok : Bool
  pub lookup_ok : Bool
  pub set_flag_ok : Bool
  pub connect_ok : Bool
  pub in_progress : Bool
  pub getsockopt_ok : Bool
  pub no_error : Bool
  pub reset_flag_ok : Bool

unfoldable pub check_connection : Network → Code
check_connection n =
    if n.getsockopt_ok
    then (if n.no_error
        then (if n.reset_flag_ok then left 0 else failed)
        else if n.in_progress
        then pending
        else failed)
    else failed

unfoldable pub start_connection : Network → Bool → Code
start_connection n numeric =
    if (if numeric then n.numeric_ok else n.lookup_ok) && n.set_flag_ok
    then (if n.connect_ok then check_connection n else if n.in_progress then pending else failed)
    else failed

unfoldable pub connect_resource_server : Network → Client → Code × Client
connect_resource_server n c = elim c.http_header [
  | no_header ↦ (failed, c)
  | response r ↦ (failed, c)
  | request r ↦ if c.address_set then (check_connection n, c) else (
    start_connection n (is_dns_hostname (parse_hostname (get_host_name r)).0),
    record c { address_set = true },
  )
]

-- getResource: what recv gives; `none` and no bytes are the end or an error.
unfoldable pub end_download : Pieces → Pieces
end_download d =
    if positive d.expected_length && not (is_full d)
    then record d { delete_request = true }
    else record d { coherence = true }

unfoldable pub receive_resource : Option (List ℕ) → Pieces → Code × Pieces
receive_resource none d = (failed, end_download d)
receive_resource (some []) d = (failed, end_download d)
receive_resource (some (b ∷ bs)) d = (left (suc (length bs)), push_data (b ∷ bs) d)

-- The end of sendResource: what `send` sends of the rest of the buffer.
unfoldable pub buffer_sent : Option ℕ → Client → Code × List ℕ × Client
buffer_sent none c = (failed, [], c)
buffer_sent (some zero) c = (failed, [], c)
buffer_sent (some (suc n)) c = (
  left (c.current_buffer_length - (c.current_buffer_rest + suc n)),
  take (suc n) (drop c.current_buffer_rest c.buffer),
  record c { current_buffer_rest = c.current_buffer_rest + suc n },
)

abbrev pub fill : List ℕ → Client → Client
fill p c = record c { buffer = p; current_buffer_length = length p; current_buffer_rest = 0 }

-- Where there is no further piece: -1 after the end of the download, and else 0.
abbrev pub no_piece : Pieces → Code
no_piece d = if d.coherence then failed else left 0

unfoldable pub next_popped : Option ℕ → Client → Pieces → (Code × List ℕ × Client) × Pieces
next_popped sent c d = elim (pop_first d.pieces) [
  | none ↦ ((no_piece d, [], c), d)
  | some (p, ps) ↦ (buffer_sent sent (fill p c), record d { pieces = ps })
]

unfoldable pub next_cached : Option ℕ → ℕ → Client → Pieces → (Code × List ℕ × Client) × Pieces
next_cached sent i c d = elim (get_elem? d.pieces i) [
  | none ↦ ((no_piece d, [], c), d)
  | some p ↦ (buffer_sent sent (record (fill p c) { position = some (i + 1) }), d)
]

-- sendResource: its result, what has been sent, and the new states.
unfoldable pub send_resource : Option ℕ → Client → Pieces → (Code × List ℕ × Client) × Pieces
send_resource sent c d =
    if d.delete_request
    then ((failed, [], c), d)
    else if length d.pieces == 0
    then ((left 0, [], c), d)
    else if c.current_buffer_length - c.current_buffer_rest == 0
    then elim c.position [ none ↦ next_popped sent c d | some i ↦ next_cached sent i c d ]
    else (buffer_sent sent c, d)

abbrev pub is_ok : ℤ → Bool
is_ok (pos n) = n == 200
is_ok (negsuc n) = false

-- The rest of parseResponse, with the response that has been read.
unfoldable pub response_parsed : PicoHttpResponse → Client → Client × Pieces
response_parsed r c = (
  record c { position = if is_ok c.response_status then some 0 else none },
  push_data r.buffered (record new_pieces {
    expected_length =
        if is_none (get_content_length r) then negsuc 0 else atoi (get_content_length r);
  }),
)

unfoldable pub parse_response : Client → Option (Client × Pieces)
parse_response c = elim c.http_header [
  | no_header ↦ none
  | request r ↦ none
  | response r ↦ some (response_parsed r c)
]

-- setSendData
unfoldable pub set_send_data : Client → Client
set_send_data c = record c { position = some 0 }
