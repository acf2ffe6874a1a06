-- ===== src/Http/Request.antt =====
-- Which requests `http_request_handler` of app/web_server.c answers, and how it reads the path.
use hitsz_network_lab.Common.{
  Bool-cases, inl, inr, ℕ, zero, suc, ◌+◌, ◌≤◌, List, [], ◌∷◌, ◌++◌, length, ltb, if◌then◌else◌,
  Option, arith, ◌≡◌, ◌≢◌, refl, Memory, bytes_eq,
}
use hitsz_network_lab.Stack.{Stack, Outcome, done, fault, out_of_bounds}
use hitsz_network_lab.Text.{codes, c_string}
use hitsz_network_lab.Http.{
  max_path_length, listen_port, http_respond, http_request_handler, skip_space, read_word,
  find_blank, copy_url,
}

-- The bytes of a path that can be asked for: neither a blank, which ends it, nor zero.
abbrev pub IsPath : List ℕ → Type 0
IsPath [] = Unit {0}
IsPath (x ∷ xs) = (x ≢ 32) × (x ≢ 0) × IsPath xs

-- The request line up to the blank behind the path.
abbrev pub get_line : List ℕ → List ℕ
get_line path = codes "GET " ++ (path ++ 32 ∷ [])

-- `text` holds `bytes` from `i` on.
abbrev pub Holds : Memory → ℕ → List ℕ → Type 0
Holds text i [] = Unit {0}
Holds text i (x ∷ xs) = (text i ≡ x) × Holds text (i + 1) xs

c_string-path : (path : List ℕ) → IsPath path → c_string path ≡ path
unfolding c_string
c_string-path [] h = refl
c_string-path (x ∷ xs) (p, q, h) = ground (arith, c_string-path xs h)

copy_url-path :
    (room : ℕ) (text : Memory) (idx : ℕ) (path : List ℕ)
    → IsPath path
    → Holds text idx (path ++ 32 ∷ [])
    → copy_url room text idx ≡ (if ltb (length path) room then done path else fault out_of_bounds)
unfolding copy_url
copy_url-path zero text idx path h k = ground arith
copy_url-path (suc room) text idx [] h (e, k) = ground arith
copy_url-path (suc room) text idx (x ∷ xs) (p, q, h) (e, k) =
    ground (arith, copy_url-path room text (idx + 1) xs h k)

skip_space-get :
    (fuel : ℕ) (text : Memory) → text 0 ≡ b'G' → 4 ≤ fuel → skip_space fuel text 0 ≡ done 0
unfolding skip_space
skip_space-get zero text g enough = absurd (omega arith)
skip_space-get (suc fuel) text g enough = ground arith

read_word-get :
    (text : Memory)
    → text 0 ≡ b'G'
    → text 1 ≡ b'E'
    → text 2 ≡ b'T'
    → read_word 3 text 0 ≡ codes "GET"
unfolding read_word
read_word-get text g e t = ground arith

find_blank-get :
    (fuel : ℕ) (text : Memory)
    → text 0 ≡ b'G'
    → text 1 ≡ b'E'
    → text 2 ≡ b'T'
    → text 3 ≡ b' '
    → 4 ≤ fuel
    → find_blank fuel text 0 ≡ done 3
unfolding find_blank
find_blank-get (suc (suc (suc (suc fuel)))) text g e t b enough = ground arith
find_blank-get (suc (suc (suc zero))) text g e t b enough = absurd (omega arith)
find_blank-get (suc (suc zero)) text g e t b enough = absurd (omega arith)
find_blank-get (suc zero) text g e t b enough = absurd (omega arith)
find_blank-get zero text g e t b enough = absurd (omega arith)

module _ (resource_dir : List ℕ) (fopen : List ℕ → Option (List ℕ))
    (tcp_send : Stack → ℕ → List ℕ → ℕ → ℕ → List ℕ → ℕ → Outcome Stack) where
  -- A request that begins with "GET ", a path and a blank is answered for just that path, with the
  -- port of the server and the address of the sender, if the path has less than 1024 bytes; a longer
  -- one is written behind the end of the array for the path.
  pub http_request_handler-get :
      (fuel : ℕ) (s : Stack) (tcp_conn : ℕ) (text : Memory) (src_ip : List ℕ) (src_port : ℕ)
      (path : List ℕ)
      → IsPath path
      → Holds text 0 (get_line path)
      → 4 ≤ fuel
      → http_request_handler resource_dir fopen tcp_send fuel s tcp_conn text src_ip src_port ≡ (
          if ltb (length path) max_path_length
          then http_respond resource_dir fopen tcp_send s tcp_conn path listen_port src_ip src_port
          else fault out_of_bounds)
  unfolding http_request_handler bytes_eq
  http_request_handler-get fuel s tcp_conn text src_ip src_port path h (g, (e, (t, (b, k))))
        enough =
      rw
        (
          skip_space-get fuel text g enough,
          read_word-get text g e t,
          find_blank-get fuel text g e t b enough,
          copy_url-path max_path_length text 4 path h k,
        )
        (elim (Bool-cases (ltb (length path) max_path_length)) [
          | inl short ↦ rw (short, c_string-path path h)
          | inr long ↦ rw long
        ])
