-- ===== src/Stack/Json/Contents.antt =====
-- What can be read back from the text of `protocol_stats_to_json`, and that it fits its buffer.
use hitsz_network_lab.Common.{
  ℕ, ◌+◌, ◌-◌, ◌^◌, ◌≤◌, ◌<◌, ◌≡◌, refl, ap, ◌∙◌, Bool, true, false, ◌&&◌, not, List, [], ◌∷◌, ◌++◌,
  length, arith, none, length-append, take-of_length_le,
}
use hitsz_network_lab.Stack.{Stack}
use hitsz_network_lab.Stack.Stats.{ProtocolStats}
use hitsz_network_lab.Text.{codes, decimal, is_digit}
use hitsz_network_lab.Text.Decimal.{numbers, numbers-decimal, length-decimal}
use hitsz_network_lab.Stack.Json.{Piece, json_pieces, print_pieces, protocol_stats_to_json}

-- The counters of a protocol in the order of the text, and those of all protocols.
abbrev pub counters : ProtocolStats → List ℕ → List ℕ
counters t rest =
    t.packets_sent ∷ t.packets_received ∷ t.bytes_sent ∷ t.bytes_received ∷ t.errors ∷ rest

abbrev pub all_counters : Stack → List ℕ
all_counters s = counters s.ip_stats (
    counters s.tcp_stats
      (counters s.udp_stats (counters s.icmp_stats (counters s.ethernet_stats []))))

-- Counters of 64 bits.
abbrev pub Fits64 : ProtocolStats → Type 0
Fits64 t =
    (t.packets_sent < 2 ^ 64)
    × (t.packets_received < 2 ^ 64)
    × (t.bytes_sent < 2 ^ 64)
    × (t.bytes_received < 2 ^ 64)
    × (t.errors < 2 ^ 64)

no_digits : List ℕ → Bool
no_digits [] = true
no_digits (c ∷ cs) = not (is_digit c) && no_digits cs

-- Texts without digits, none of them empty.
ArePieces : List Piece → Type 0
ArePieces [] = Unit {0}
ArePieces (([], n) ∷ rest) = ⊥
ArePieces ((c ∷ cs, n) ∷ rest) = (no_digits (c ∷ cs) ≡ true) × ArePieces rest

values : List Piece → List ℕ
values [] = []
values ((text, n) ∷ rest) = n ∷ values rest

numbers-no_digits :
    (cs rest : List ℕ) → no_digits cs ≡ true → numbers none (cs ++ rest) ≡ numbers none rest
unfolding no_digits numbers
numbers-no_digits [] rest h = refl
numbers-no_digits (c ∷ cs) rest h = ground (arith, numbers-no_digits cs rest)

-- A text that begins with something that is no digit.
abbrev StartsPlain : List ℕ → Type 0
StartsPlain [] = ⊥
StartsPlain (c ∷ cs) = is_digit c ≡ false

print_pieces-StartsPlain :
    (closing : List ℕ) (pieces : List Piece)
    → StartsPlain closing
    → ArePieces pieces
    → StartsPlain (print_pieces closing pieces)
unfolding print_pieces ArePieces no_digits
print_pieces-StartsPlain closing [] h k = h
print_pieces-StartsPlain closing (([], n) ∷ rest) h k = absurd k
print_pieces-StartsPlain closing ((t ∷ ts, n) ∷ rest) h (p, k) = ground arith

numbers-decimal-append :
    (n : ℕ) (rest : List ℕ)
    → StartsPlain rest
    → numbers none (decimal n ++ rest) ≡ n ∷ numbers none rest
numbers-decimal-append n [] h = absurd h
numbers-decimal-append n (c ∷ cs) h = numbers-decimal n c cs h

numbers-print_pieces :
    (closing : List ℕ) (pieces : List Piece)
    → StartsPlain closing
    → numbers none closing ≡ []
    → ArePieces pieces
    → numbers none (print_pieces closing pieces) ≡ values pieces
unfolding print_pieces values ArePieces
numbers-print_pieces closing [] plain h k = h
numbers-print_pieces closing (([], n) ∷ rest) plain h k = absurd k
numbers-print_pieces closing ((t ∷ ts, n) ∷ rest) plain h (p, k) =
    numbers-no_digits (t ∷ ts) _ p
    ∙ numbers-decimal-append n _ (print_pieces-StartsPlain closing rest plain k)
    ∙ ap (◌∷◌ n) (numbers-print_pieces closing rest plain h k)

-- The lengths of the texts, and twenty digits for each number.
room_for : List Piece → ℕ
room_for [] = 0
room_for ((text, n) ∷ rest) = length text + 20 + room_for rest

AreSmall : List Piece → Type 0
AreSmall [] = Unit {0}
AreSmall ((text, n) ∷ rest) = (n < 2 ^ 64) × AreSmall rest

length-print_pieces :
    (closing : List ℕ) (pieces : List Piece)
    → AreSmall pieces
    → length (print_pieces closing pieces) ≤ room_for pieces + length closing
unfolding print_pieces room_for AreSmall
length-print_pieces closing [] h = omega arith
length-print_pieces closing ((text, n) ∷ rest) (p, h) = omega (
  arith,
  length-append text (decimal n ++ print_pieces closing rest),
  length-append (decimal n) (print_pieces closing rest),
  length-decimal 19 n (omega arith),
  length-print_pieces closing rest h,
)

abbrev pub Fits64All : Stack → Type 0
Fits64All s =
    Fits64 s.ip_stats
    × Fits64 s.tcp_stats
    × Fits64 s.udp_stats
    × Fits64 s.icmp_stats
    × Fits64 s.ethernet_stats

json-ArePieces : (s : Stack) → ArePieces (json_pieces s)
unfolding no_digits ArePieces is_digit
json-ArePieces s = ground arith

json-AreSmall : (s : Stack) → Fits64All s → AreSmall (json_pieces s)
unfolding AreSmall
json-AreSmall s h = omega arith

json_short : (s : Stack) → Fits64All s → length (print_pieces (codes "}}") (json_pieces s)) < 2048
unfolding room_for
json_short s h = omega (arith, length-print_pieces (codes "}}") (json_pieces s) (json-AreSmall s h))

json_counters :
    (s : Stack) → numbers none (print_pieces (codes "}}") (json_pieces s)) ≡ all_counters s
unfolding values is_digit numbers
json_counters s = numbers-print_pieces (codes "}}") (json_pieces s) refl refl (json-ArePieces s)

-- With counters of 64 bits, the text fits in a buffer of 2048 bytes or more with its closing zero, so
-- it is written whole and its length is returned; the numbers in it are the 25 counters, in their
-- order.
pub protocol_stats_to_json_lem :
    (s : Stack) (buf_size : ℕ)
    → Fits64All s
    → 2048 ≤ buf_size
    → let (len, text) = protocol_stats_to_json s buf_size in
      (len ≡ length text) × (len < 2048) × (numbers none text ≡ all_counters s)
unfolding protocol_stats_to_json
protocol_stats_to_json_lem s buf_size h room =
    rw
      (take-of_length_le (buf_size - 1) (print_pieces (codes "}}") (json_pieces s))
        (omega (arith, json_short s h)))
      (refl, json_short s h, json_counters s)
