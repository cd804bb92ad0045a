-- ===== src/ChClient.antt =====
-- src/ch_client.rs: one HTTP request to the control socket of a VM. Connecting, the handshake and the
-- exchange are hyper's: a parameter that takes the request and returns a response or fails.
use croutond.Base.{
  ℕ, String, Option, none, some, List, [], ◌∷◌, if◌then◌else◌, ◌≡◌, refl, Result, ok, err, str_eq,
}
use croutond.Base.Text.{is_empty}
use croutond.Types.{ProxyResponse}

pub data Method : Type 0 where
  get put : Method

pub record Request : Type 0 where
  pub socket : String
  pub method : Method
  pub uri : String
  pub headers : List (String × String)
  pub body : List ℕ

-- A response's headers in order, by name in lower case, each with its value where that decodes as text
-- (`value.to_str().ok()`).
pub record Response : Type 0 where
  pub status : ℕ
  pub headers : List (String × Option String)
  pub body : List ℕ

abbrev pub Http : Type 0
Http = Request → Result String Response

-- `headers().get(name).and_then(…)`: the first header of the name decides.
header : String → List (String × Option String) → Option String
header name [] = none
header name ((key, value) ∷ headers) =
    let rest = header name headers in if str_eq key name then value else rest

content_type_header : Option String → List (String × String)
content_type_header none = []
content_type_header (some value) = ("content-type", value) ∷ []

pub request_for : String → Method → String → List ℕ → Option String → Request
unfolding content_type_header
request_for socket_path method path body content_type = record {
  socket = socket_path;
  method = method;
  uri = if is_empty path then "/" else path;
  headers = ("host", "localhost") ∷ ("connection", "close") ∷ content_type_header content_type;
  body = body;
}

response_to_proxy_response : Response → ProxyResponse
unfolding header
response_to_proxy_response response = record {
  status = response.status;
  content_type = header "content-type" response.headers;
  body = response.body;
}

unfoldable pub send_unix_http_request :
    Http → String → Method → String → List ℕ → Option String → Result String ProxyResponse
unfolding request_for response_to_proxy_response
send_unix_http_request http socket_path method path body content_type =
    elim (http (request_for socket_path method path body content_type)) [
      | err error ↦ err error
      | ok response ↦ ok (response_to_proxy_response response)
    ]

-- A response is passed on with its status.
pub send_unix_http_request-status :
    (http : Http) (socket_path : String) (method : Method) (path : String) (body : List ℕ)
    (content_type : Option String) (response : Response)
    → http (request_for socket_path method path body content_type) ≡ ok response
    → (r : ProxyResponse) × (send_unix_http_request http socket_path method path body content_type
        ≡ ok r)
      × (r.status ≡ response.status)
unfolding send_unix_http_request
send_unix_http_request-status http socket_path method path body content_type response e =
    (response_to_proxy_response response, rw (e, send_unix_http_request) refl, refl)
