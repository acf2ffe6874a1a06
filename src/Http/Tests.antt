-- ===== src/Http/Tests.antt =====
-- The theorems about app/web_server.c at a small file, and runs of the handler.
use mathlib.Core.List.{flatten}
use hitsz_network_lab.Common.{
  ℕ, ◌^◌, ◌<◌, ◌≡◌, refl, arith, List, [], ◌∷◌, ◌++◌, length, get_or, Option, none, some, bytes_eq,
  ltb, if◌then◌else◌, Memory,
}
use hitsz_network_lab.Stack.{Stack, Outcome, done, fault, out_of_bounds}
use hitsz_network_lab.Stack.Example.{example, remote_ip}
use hitsz_network_lab.Text.{codes, strstr, decimal}
use hitsz_network_lab.Http.{
  max_path_length, listen_port, resource_path, http_get_mime_type, send_body, send_response,
  http_respond, skip_space, read_word, http_request_handler,
}
use hitsz_network_lab.Http.Response.{
  FitsAll, response_head, response_body, send_all, http_respond-sends,
}
use hitsz_network_lab.Http.Request.{http_request_handler-get}

abbrev resources : List ℕ
resources = codes "/srv"

abbrev page : List ℕ
page = codes "<p>Hi</p>"

-- One file.
abbrev files : List ℕ → Option (List ℕ)
files path = if bytes_eq path (codes "/srv/index.html") then some page else none

-- A `tcp_send` that keeps what it is given.
abbrev log_send : Stack → ℕ → List ℕ → ℕ → ℕ → List ℕ → ℕ → Outcome Stack
log_send s tcp_conn bytes len port dst_ip dst_port = done (record s { sent = bytes ∷ s.sent })

abbrev index_path : List ℕ
index_path = resource_path resources (codes "/")

index_path_fits : length index_path < max_path_length
unfolding resource_path bytes_eq
index_path_fits = omega arith

index_small : length (response_body (files index_path)) < 2 ^ 64
unfolding resource_path bytes_eq
index_small = omega arith

http_respond-sends_example :
    (messages : List (List ℕ)) × (http_respond resources files log_send example 0
        (codes "/")
        80
        remote_ip
        5000
      ≡ send_all log_send 80 remote_ip 5000 example 0 messages)
    × (flatten messages
        ≡ flatten (response_head index_path (files index_path)) ++ response_body (files index_path))
    × FitsAll messages
http_respond-sends_example =
    http_respond-sends log_send 80 remote_ip 5000 resources files example 0 (codes "/")
      index_path_fits index_small

-- The messages of that response.
index_page :
    http_respond resources files log_send example 0 (codes "/") 80 remote_ip 5000
    ≡ done (record example {
      sent =
          page
          ∷ codes "\r\n"
          ∷ codes "Content-Length: 9\r\n"
          ∷ codes "Content-Type: text/html; charset=utf-8\r\n"
          ∷ codes "Connection: Keep-Alive\r\n"
          ∷ codes "HTTP/1.1 20 OK\r\n"
          ∷ [];
    })
unfolding http_respond send_response resource_path bytes_eq http_get_mime_type strstr decimal
    send_body
index_page = refl

abbrev css_request : Memory
css_request i = get_or (codes "GET /a.css HTTP/1.1") i 0

http_request_handler-get_example :
    http_request_handler resources files log_send 4 example 0 css_request remote_ip 5000 ≡ (
      if ltb (length (codes "/a.css")) max_path_length
      then http_respond resources files log_send example 0
          (codes "/a.css")
          listen_port
          remote_ip
          5000
      else fault out_of_bounds)
http_request_handler-get_example =
    http_request_handler-get resources files log_send 4 example 0 css_request remote_ip 5000
      (codes "/a.css") (omega arith) (omega arith) (omega arith)

-- Other methods are not answered.
post_request :
    http_request_handler resources files log_send 4 example 0
      (λ i. get_or (codes "POST / ") i 0)
      remote_ip
      5000
    ≡ done example
unfolding http_request_handler skip_space read_word bytes_eq
post_request = refl
