-- ===== src/Http/Response.antt =====
-- What `http_respond` of app/web_server.c hands to `tcp_send`: the response in blocks.
use mathlib.Core.List.{flatten}
use hitsz_network_lab.Common.{
  lt→ltb, lt→leb, ℕ, zero, suc, ◌+◌, ◌^◌, ◌≤◌, ◌<◌, List, [], ◌∷◌, ◌++◌, length, take, drop, Option,
  none, some, arith, ◌≡◌, refl, sym, ap, ◌∙◌, append-nil, append_assoc, length-append, length-take,
  length-drop, take-append-drop,
}
use hitsz_network_lab.Stack.{Stack, Outcome, done, fault, ◌>>=◌}
use hitsz_network_lab.Text.{codes, decimal}
use hitsz_network_lab.Text.Decimal.{length-decimal}
use hitsz_network_lab.Http.{
  max_path_length, max_response_length, http_get_mime_type, not_found_body, resource_path,
  send_body, http_respond, send_response,
}

-- What `tcp_send` does not drop, and `resp_buffer` has room for.
abbrev pub FitsAll : List (List ℕ) → Type 0
FitsAll [] = Unit {0}
FitsAll (m ∷ ms) = (0 < length m) × (length m ≤ max_response_length) × FitsAll ms

-- The status line and the headers, up to the blank line, by the file if there is one.
unfoldable pub response_head : List ℕ → Option (List ℕ) → List (List ℕ)
response_head file_path none =
    codes "HTTP/1.1 404 NOT FOUND\r\n"
    ∷ codes "Connection: Keep-Alive\r\n"
    ∷ codes "Content-Type: text/html\r\n"
    ∷ (codes "Content-Length: " ++ (decimal (length not_found_body) ++ codes "\r\n"))
    ∷ codes "\r\n"
    ∷ []
response_head file_path (some file) =
    codes "HTTP/1.1 20 OK\r\n"
    ∷ codes "Connection: Keep-Alive\r\n"
    ∷ (codes "Content-Type: " ++ (http_get_mime_type file_path ++ codes "\r\n"))
    ∷ (codes "Content-Length: " ++ (decimal (length file) ++ codes "\r\n"))
    ∷ codes "\r\n"
    ∷ []

abbrev pub response_body : Option (List ℕ) → List ℕ
response_body none = not_found_body
response_body (some file) = file

flatten-append : (xs ys : List (List ℕ)) → flatten (xs ++ ys) ≡ flatten xs ++ flatten ys
unfolding flatten
flatten-append [] ys = refl
flatten-append (x ∷ xs) ys =
    rw (flatten-append xs ys) (sym (append_assoc x (flatten xs) (flatten ys)))

FitsAll-append : (xs ys : List (List ℕ)) → FitsAll xs → FitsAll ys → FitsAll (xs ++ ys)
FitsAll-append [] ys h k = k
FitsAll-append (x ∷ xs) ys (p, q, h) k = (p, q, FitsAll-append xs ys h k)

-- The blocks of at most `size` bytes that a file is sent in.
blocks : ℕ → ℕ → List ℕ → List (List ℕ)
blocks size zero rest = []
blocks size (suc fuel) [] = []
blocks size (suc fuel) (x ∷ xs) = take size (x ∷ xs) ∷ blocks size fuel (drop size (x ∷ xs))

flatten-blocks :
    (size fuel : ℕ) (rest : List ℕ)
    → 0 < size
    → length rest < fuel
    → flatten (blocks size fuel rest) ≡ rest
unfolding blocks flatten
flatten-blocks size zero rest p h = absurd (omega arith)
flatten-blocks size (suc fuel) [] p h = refl
flatten-blocks size (suc fuel) (x ∷ xs) p h =
    ap (λ t. take size (x ∷ xs) ++ t)
      (flatten-blocks size fuel (drop size (x ∷ xs)) p (omega (arith, length-drop size (x ∷ xs))))
    ∙ take-append-drop size (x ∷ xs)

blocks-FitsAll :
    (size fuel : ℕ) (rest : List ℕ)
    → 0 < size
    → size ≤ max_response_length
    → FitsAll (blocks size fuel rest)
unfolding blocks
blocks-FitsAll size zero rest p q = tt
blocks-FitsAll size (suc fuel) [] p q = tt
blocks-FitsAll size (suc fuel) (x ∷ xs) p q = (
  omega (arith, length-take size (x ∷ xs)),
  omega (arith, length-take size (x ∷ xs)),
  blocks-FitsAll size fuel (drop size (x ∷ xs)) p q,
)

length-mime_type : (file_path : List ℕ) → length (http_get_mime_type file_path) ≤ 24
unfolding http_get_mime_type
length-mime_type file_path = ground arith

length-line : (xs : List ℕ) → length (xs ++ codes "\r\n") ≡ length xs + 2
length-line xs = length-append xs (codes "\r\n")

response_head-FitsAll :
    (file_path : List ℕ) (file : Option (List ℕ))
    → length (response_body file) < 2 ^ 64
    → FitsAll (response_head file_path file)
unfolding response_head
response_head-FitsAll file_path none h =
    omega (arith, length-line (decimal 104), length-decimal 19 104 (omega arith))
response_head-FitsAll file_path (some file) h = omega (
  arith,
  length-line (http_get_mime_type file_path),
  length-mime_type file_path,
  length-line (decimal (length file)),
  length-decimal 19 (length file) (omega arith),
)

module _ (tcp_send : Stack → ℕ → List ℕ → ℕ → ℕ → List ℕ → ℕ → Outcome Stack) (port : ℕ)
    (dst_ip : List ℕ) (dst_port : ℕ) where
  -- One call of `tcp_send` for each block of the response.
  unfoldable pub send_all : Stack → ℕ → List (List ℕ) → Outcome Stack
  send_all s tcp_conn [] = done s
  send_all s tcp_conn (m ∷ ms) =
      tcp_send s tcp_conn m (length m) port dst_ip dst_port >>= λ s'. send_all s' tcp_conn ms

  >>=_congr :
      (o : Outcome Stack) (f g : Stack → Outcome Stack)
      → ((s : Stack) → f s ≡ g s)
      → (o >>= f) ≡ (o >>= g)
  >>=_congr (done s) f g h = h s
  >>=_congr (fault e) f g h = refl

  >>=_assoc :
      (o : Outcome Stack) (f g : Stack → Outcome Stack) → (o >>= f >>= g) ≡ (o >>= λ s. (f s >>= g))
  >>=_assoc (done s) f g = refl
  >>=_assoc (fault e) f g = refl

  pub send_all-append :
      (s : Stack) (tcp_conn : ℕ) (xs ys : List (List ℕ))
      → send_all s tcp_conn (xs ++ ys) ≡ (send_all s tcp_conn xs >>= λ s'. send_all s' tcp_conn ys)
  unfolding send_all
  send_all-append s tcp_conn [] ys = refl
  send_all-append s tcp_conn (x ∷ xs) ys =
      let first = tcp_send s tcp_conn x (length x) port dst_ip dst_port in
      >>=_congr first _ _ (λ t. send_all-append t tcp_conn xs ys)
      ∙ sym (>>=_assoc first (λ t. send_all t tcp_conn xs) (λ t. send_all t tcp_conn ys))

  send_body-blocks :
      (size fuel : ℕ) (s : Stack) (tcp_conn : ℕ) (rest : List ℕ)
      → 0 < size
      → length rest < fuel
      → send_body tcp_send size fuel s tcp_conn rest port dst_ip dst_port
        ≡ send_all s tcp_conn (blocks size fuel rest)
  unfolding send_body blocks send_all
  send_body-blocks size zero s tcp_conn rest p h = absurd (omega arith)
  send_body-blocks zero (suc fuel) s tcp_conn rest p h = absurd (omega arith)
  send_body-blocks (suc size) (suc fuel) s tcp_conn [] p h = refl
  send_body-blocks (suc size) (suc fuel) s tcp_conn (x ∷ xs) p h =
      rw (lt→ltb 0 (suc (length (take size xs))) (omega arith), send_body)
        (>>=_congr
          (tcp_send s tcp_conn (x ∷ take size xs) (suc (length (take size xs))) port dst_ip
            dst_port)
          _ _
          λ t.
            send_body-blocks (suc size) fuel t tcp_conn (drop size xs) p
              (omega (arith, length-drop size xs)))

  >>=_done : (o : Outcome Stack) → (o >>= done) ≡ o
  >>=_done (done s) = refl
  >>=_done (fault e) = refl

  -- Six sends in a row.
  send_six :
      (s : Stack) (c : ℕ) (m1 m2 m3 m4 m5 : List ℕ) (k : Stack → Outcome Stack)
      → let send =
          λ (text : List ℕ) (t : Stack). tcp_send t c text (length text) port dst_ip dst_port in
        (send m1 s >>= send m2 >>= send m3 >>= send m4 >>= send m5 >>= k)
        ≡ (send_all s c (m1 ∷ m2 ∷ m3 ∷ m4 ∷ m5 ∷ []) >>= k)
  unfolding send_all
  send_six s c m1 m2 m3 m4 m5 k = simp (>>=_assoc, >>=_done)

  send_response-sends :
      (file : Option (List ℕ)) (file_path : List ℕ) (s : Stack) (tcp_conn : ℕ)
      → length (response_body file) < 2 ^ 64
      → (messages : List (List ℕ)) × (send_response tcp_send file file_path s tcp_conn port dst_ip
            dst_port
          ≡ send_all s tcp_conn messages)
        × (flatten messages ≡ flatten (response_head file_path file) ++ response_body file)
        × FitsAll messages
  unfolding send_all flatten
  send_response-sends none file_path s c h =
      let head = response_head file_path none in
      let send =
        λ (text : List ℕ) (t : Stack). tcp_send t c text (length text) port dst_ip dst_port in
      let last = λ (t : Stack). send_all t c (not_found_body ∷ []) in
      (
        head ++ not_found_body ∷ [],
        unfold send_response response_head in
            (send_six s c _ _ _ _ _ (send not_found_body)
              ∙ >>=_congr (send_all s c head) (send not_found_body) last
                  (λ t. sym (>>=_done (send not_found_body t)))
              ∙ sym (send_all-append s c head (not_found_body ∷ []))),
        flatten-append head (not_found_body ∷ [])
            ∙ ap (◌++◌ (flatten head)) (append-nil not_found_body),
        FitsAll-append head (not_found_body ∷ []) (response_head-FitsAll file_path none h)
            (omega arith),
      )
  send_response-sends (some file) file_path s c h =
      let head = response_head file_path (some file) in
      let body = blocks max_response_length (length file + 1) file in
      let loop = λ (t : Stack).
        send_body tcp_send max_response_length (length file + 1) t c file port dst_ip dst_port in
      (
        head ++ body,
        unfold send_response response_head in
            (send_six s c _ _ _ _ _ loop
              ∙ >>=_congr (send_all s c head) loop (λ t. send_all t c body)
                  (λ t.
                    send_body-blocks max_response_length (length file + 1) t c file (omega arith)
                      (omega arith))
              ∙ sym (send_all-append s c head body)),
        flatten-append head body
            ∙ ap (◌++◌ (flatten head)) (
                flatten-blocks max_response_length (length file + 1) file (omega arith)
                  (omega arith)),
        FitsAll-append head body (response_head-FitsAll file_path (some file) h)
            (blocks-FitsAll max_response_length (length file + 1) file (omega arith) (omega arith)),
      )

  -- If the path fits in its buffer, `http_respond` makes one call of `tcp_send` for each of a
  -- list of messages, none of them empty or longer than the response buffer, and together they are
  -- the status line, the headers with the length of the body, and the body: the bytes of the file,
  -- or the text for a resource that is not there.
  pub http_respond-sends :
      (resource_dir : List ℕ) (fopen : List ℕ → Option (List ℕ)) (s : Stack) (tcp_conn : ℕ)
      (url_path : List ℕ)
      → let file_path = resource_path resource_dir url_path in
        length file_path < max_path_length
        → length (response_body (fopen file_path)) < 2 ^ 64
        → (messages : List (List ℕ)) × (http_respond resource_dir fopen tcp_send s tcp_conn url_path
              port dst_ip dst_port
            ≡ send_all s tcp_conn messages)
          × (flatten messages
              ≡ flatten (response_head file_path (fopen file_path))
                ++ response_body (fopen file_path))
          × FitsAll messages
  http_respond-sends resource_dir fopen s tcp_conn url_path fits small =
      let file_path = resource_path resource_dir url_path in
      let (messages, sent, together, fit) =
        send_response-sends (fopen file_path) file_path s tcp_conn small in
      (
        messages,
        unfold http_respond in (rw (lt→leb max_path_length (length file_path) fits) sent),
        together,
        fit,
      )
