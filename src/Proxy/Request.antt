-- ===== src/Proxy/Request.antt =====
-- PicoHttpParser.cpp, PicoHttpRequest.cpp and PicoHttpResponse.cpp: what is read out of the fields
-- that picohttpparser has set; a pointer that is NULL is `none`.
use sys_prog.Prelude.{
  ℕ, ◌+◌, Bool, ◌&&◌, not, Option, none, some, List, [], ◌∷◌, ◌++◌, if◌then◌else◌, same_text, codes,
  drop, length,
}
use sys_prog.Proxy.Text.{find}

pub record Header : Type 0 where
  pub name : List ℕ
  pub value : List ℕ

-- The buffer `buffered` and the fields of a request.
pub record PicoHttpRequest : Type 0 where
  pub buffered : List ℕ
  pub method : Option (List ℕ)
  pub path : Option (List ℕ)
  pub headers : List Header

pub record PicoHttpResponse : Type 0 where
  pub buffered : List ℕ
  pub status : ℕ
  pub headers : List Header

abbrev pub none_text : List ℕ
none_text = codes "NONE"

unfoldable pub is_none : List ℕ → Bool
is_none s = same_text none_text s

unfoldable pub get_header : List ℕ → List Header → Option Header
get_header name [] = none
get_header name (h ∷ hs) = if same_text h.name name then some h else get_header name hs

unfoldable pub get_method : PicoHttpRequest → List ℕ
get_method r = elim r.method [ none ↦ none_text | some m ↦ m ]

unfoldable pub get_url : PicoHttpRequest → List ℕ
get_url r = elim r.path [ none ↦ none_text | some p ↦ p ]

unfoldable pub host_of : List Header → List ℕ
host_of hs = elim (get_header (codes "Host") hs) [ none ↦ none_text | some h ↦ h.value ]

unfoldable pub get_host_name : PicoHttpRequest → List ℕ
get_host_name r = elim r.path [
  | none ↦ none_text
  | some p ↦ elim r.method [ none ↦ none_text | some m ↦ host_of r.headers ]
]

-- The part of the URL behind the host name.
unfoldable pub resource_of : (url host : List ℕ) → List ℕ
resource_of url host =
    if not (is_none url) && not (is_none host)
    then elim (find host url) [ none ↦ none_text | some i ↦ drop (i + length host) url ]
    else none_text

unfoldable pub get_resource : PicoHttpRequest → List ℕ
get_resource r = resource_of (get_url r) (get_host_name r)

abbrev pub user_headers_names : List (List ℕ)
user_headers_names =
    codes "DNT"
    ∷ codes "User-Agent"
    ∷ codes "Accept"
    ∷ codes "Accept-Encoding"
    ∷ codes "Accept-Language"
    ∷ []

abbrev pub crlf : List ℕ
crlf = 13 ∷ 10 ∷ []

abbrev pub header_line : Option Header → List ℕ
header_line none = []
header_line (some h) = h.name ++ codes ": " ++ h.value ++ crlf

unfoldable pub header_lines : List (List ℕ) → List Header → List ℕ
header_lines [] hs = []
header_lines (n ∷ ns) hs = header_line (get_header n hs) ++ header_lines ns hs

abbrev pub or_none : List ℕ → List ℕ
or_none [] = none_text
or_none (c ∷ cs) = c ∷ cs

unfoldable pub get_user_headers : PicoHttpRequest → List ℕ
get_user_headers r = or_none (header_lines user_headers_names r.headers)

unfoldable pub get_content_length : PicoHttpResponse → List ℕ
get_content_length r = elim (get_header (codes "Content-Length") r.headers) [
  | none ↦ none_text
  | some h ↦ h.value
]
