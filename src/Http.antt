-- ===== src/Http.antt =====
-- app/web_server.c: a server of files on port 80. The files, the directory of the build macro
-- HTTP_RESOURCE_DIR and `tcp_send` of src/tcp.c are parameters.
pub mod Response
pub mod Request
pub mod Tests
use hitsz_network_lab.Common.{
  ℕ, zero, suc, ◌+◌, Bool, not, ◌||◌, List, [], ◌∷◌, ◌++◌, length, take, drop, ltb, leb, ◌==◌,
  if◌then◌else◌, Option, none, some, Memory, bytes_eq, Status, get_or,
}
use hitsz_network_lab.Stack.{
  Stack, Outcome, done, fault, Fault, out_of_fuel, out_of_bounds, ◌>>=◌, BufPointer,
}
use hitsz_network_lab.Stack.Tables.{NetHandler}
use hitsz_network_lab.Text.{codes, c_string, strstr, is_space, decimal}
use hitsz_network_lab.Tcp.{tcp_open, tcp_send}
use hitsz_network_lab.Net.{net_init}

-- HTTP_MAX_PATH_LENGTH, HTTP_MAX_RESPONSE_LENGTH, HTTP_LISTEN_PORT
abbrev pub max_path_length : ℕ
max_path_length = 1024

abbrev pub max_response_length : ℕ
max_response_length = 1024

abbrev pub listen_port : ℕ
listen_port = 80

unfoldable pub http_get_mime_type : List ℕ → List ℕ
http_get_mime_type file_path =
    if strstr file_path (codes ".html") || strstr file_path (codes ".htm")
    then codes "text/html; charset=utf-8"
    else if strstr file_path (codes ".css")
    then codes "text/css"
    else if strstr file_path (codes ".jpg") || strstr file_path (codes ".jpeg")
    then codes "image/jpeg"
    else codes "application/octet-stream"

abbrev pub not_found_body : List ℕ
not_found_body =
    codes "<HTML><TITLE>Not Found</TITLE>\r\n"
    ++ (codes "The resource specified\r\n"
        ++ (codes "is unavailable or nonexistent.\r\n" ++ codes "</BODY></HTML>\r\n"))

-- The path of the file: `url_path` below the directory of the resources.
unfoldable pub resource_path : List ℕ → List ℕ → List ℕ
resource_path resource_dir url_path =
    if bytes_eq url_path (codes "/")
    then resource_dir ++ codes "/index.html"
    else resource_dir ++ url_path

module _ (tcp_send : Stack → ℕ → List ℕ → ℕ → ℕ → List ℕ → ℕ → Outcome Stack) where
  -- The loop of `fread` and `tcp_send` over what is left of the file. `size` is that of
  -- `resp_buffer`.
  unfoldable pub send_body : ℕ → ℕ → Stack → ℕ → List ℕ → ℕ → List ℕ → ℕ → Outcome Stack
  send_body size zero s tcp_conn rest port dst_ip dst_port = fault out_of_fuel
  send_body size (suc fuel) s tcp_conn rest port dst_ip dst_port =
      let bytes_read = length (take size rest) in
      elim (ltb 0 bytes_read) [
        | Bool.false ↦ done s
        | Bool.true ↦ tcp_send s tcp_conn (take size rest) bytes_read port dst_ip dst_port >>= λ s'.
            send_body size fuel s' tcp_conn (drop size rest) port dst_ip dst_port
      ]

  -- The response once `fopen` has returned.
  unfoldable pub send_response :
      Option (List ℕ) → List ℕ → Stack → ℕ → ℕ → List ℕ → ℕ → Outcome Stack
  unfolding http_get_mime_type send_body
  send_response none file_path s tcp_conn port dst_ip dst_port =
      let send = λ (text : List ℕ) (t : Stack).
        tcp_send t tcp_conn text (length text) port dst_ip dst_port in
      send (codes "HTTP/1.1 404 NOT FOUND\r\n") s
      >>= send (codes "Connection: Keep-Alive\r\n")
      >>= send (codes "Content-Type: text/html\r\n")
      >>= send (codes "Content-Length: " ++ (decimal (length not_found_body) ++ codes "\r\n"))
      >>= send (codes "\r\n")
      >>= send not_found_body
  send_response (some file) file_path s tcp_conn port dst_ip dst_port =
      let send = λ (text : List ℕ) (t : Stack).
        tcp_send t tcp_conn text (length text) port dst_ip dst_port in
      send (codes "HTTP/1.1 20 OK\r\n") s
      >>= send (codes "Connection: Keep-Alive\r\n")
      >>= send (codes "Content-Type: " ++ (http_get_mime_type file_path ++ codes "\r\n"))
      >>= send (codes "Content-Length: " ++ (decimal (length file) ++ codes "\r\n"))
      >>= send (codes "\r\n")
      >>= λ s'.
          send_body max_response_length (length file + 1) s' tcp_conn file port dst_ip dst_port

-- `sscanf (data, "%3s", method)`: white space is skipped, then `width` bytes are read at most.
unfoldable pub skip_space : ℕ → Memory → ℕ → Outcome ℕ
unfolding is_space
skip_space zero text i = fault out_of_fuel
skip_space (suc fuel) text i =
    let further = skip_space fuel text (i + 1) in if is_space (text i) then further else done i

unfoldable pub read_word : ℕ → Memory → ℕ → List ℕ
unfolding is_space
read_word zero text i = []
read_word (suc width) text i =
    let further = read_word width text (i + 1) in
    if is_space (text i) || text i == 0 then [] else text i ∷ further

-- `while (data[idx] != ' ') ++idx;`
unfoldable pub find_blank : ℕ → Memory → ℕ → Outcome ℕ
find_blank zero text idx = fault out_of_fuel
find_blank (suc fuel) text idx =
    let further = find_blank fuel text (idx + 1) in if text idx == 32 then done idx else further

-- The loop that copies the URL, which has no bound; `url_path` has 1024 bytes and a zero is put
-- behind the copy. `room` is what is left of them.
unfoldable pub copy_url : ℕ → Memory → ℕ → Outcome (List ℕ)
copy_url zero text idx = fault out_of_bounds
copy_url (suc room) text idx =
    let further = copy_url room text (idx + 1) >>= λ url_path. done (text idx ∷ url_path) in
    if text idx == 32 then done [] else further

module _ (resource_dir : List ℕ) (fopen : List ℕ → Option (List ℕ))
    (tcp_send : Stack → ℕ → List ℕ → ℕ → ℕ → List ℕ → ℕ → Outcome Stack) where
  -- A path that does not fit in `file_path` is written behind it.
  unfoldable pub http_respond : Stack → ℕ → List ℕ → ℕ → List ℕ → ℕ → Outcome Stack
  http_respond s tcp_conn url_path port dst_ip dst_port =
      let file_path = resource_path resource_dir url_path in
      if leb max_path_length (length file_path)
      then fault out_of_bounds
      else send_response tcp_send (fopen file_path) file_path s tcp_conn port dst_ip dst_port

  -- `text` is what stands in memory from `data` on.
  unfoldable pub http_request_handler : ℕ → Stack → ℕ → Memory → List ℕ → ℕ → Outcome Stack
  http_request_handler fuel s tcp_conn text src_ip src_port = skip_space fuel text 0 >>= λ start.
      if not (bytes_eq (read_word 3 text start) (codes "GET"))
      then done s
      else (find_blank fuel text 0 >>= λ idx.
          copy_url max_path_length text (idx + 1) >>= λ url_path.
          http_respond s tcp_conn (c_string url_path) listen_port src_ip src_port)

-- The handler that `main` registers. `behind` is what stands in the buffer behind the segment.
unfoldable pub web_handler :
    List ℕ
    → (List ℕ → Option (List ℕ))
    → ℕ
    → Memory
    → (Stack → BufPointer → List ℕ → ℕ → Outcome Stack)
    → Stack
    → ℕ
    → ℕ
    → List ℕ
    → List ℕ
    → ℕ
    → Outcome Stack
unfolding http_request_handler
web_handler resource_dir fopen fuel behind ip_out s handler tcp_conn bytes src_ip src_port =
    http_request_handler resource_dir fopen (tcp_send ip_out) fuel s tcp_conn
      (λ i. get_or bytes i (behind i)) src_ip src_port
