-- ===== src/Pktline/RoundTrip.antt =====
-- What is framed is split into the same packets.
use gitally.Prelude.{
  ℕ, ◌+◌, ◌*◌, ◌/◌, ◌%◌, ◌<◌, ◌≡◌, refl, Bool, false, some, List, [], ◌∷◌, ◌++◌, arith, ltb, ◌==◌,
  length, take, drop, length-append, ap, sym, ◌∙◌, subst, append_assoc, inl, inr, Bool-cases,
}
use gitally.Pktline.{
  max_pkt_size, hex_digit, hex4, digit_value, add_digit, parse_digits, positive, signed, parse_int,
  token, split_at, pkt_line_splitter, write_string, data_of,
}

digit_value-hex_digit : (d : ℕ) → d < 16 → digit_value (hex_digit d) ≡ some d
unfolding digit_value hex_digit
digit_value-hex_digit d h = ground arith

hex_digit-signless :
    (d : ℕ) → d < 16 → ((hex_digit d == 43) ≡ false) × ((hex_digit d == 45) ≡ false)
unfolding hex_digit
hex_digit-signless d h = (ground arith, ground arith)

parse_digits-hex_digit :
    (n d : ℕ) (bs : List ℕ)
    → d < 16
    → parse_digits (some n) (hex_digit d ∷ bs) ≡ parse_digits (some (n * 16 + d)) bs
unfolding parse_digits add_digit
parse_digits-hex_digit n d bs h = rw (digit_value-hex_digit d h) refl

parse_digits-four :
    (a b c d : ℕ)
    → a < 16
    → b < 16
    → c < 16
    → d < 16
    → parse_digits (some 0) (hex_digit a ∷ hex_digit b ∷ hex_digit c ∷ hex_digit d ∷ [])
      ≡ some ((((0 * 16 + a) * 16 + b) * 16 + c) * 16 + d)
unfolding parse_digits
parse_digits-four a b c d p q r s =
    parse_digits-hex_digit 0 a (hex_digit b ∷ hex_digit c ∷ hex_digit d ∷ []) p
    ∙ parse_digits-hex_digit (0 * 16 + a) b (hex_digit c ∷ hex_digit d ∷ []) q
    ∙ parse_digits-hex_digit ((0 * 16 + a) * 16 + b) c (hex_digit d ∷ []) r
    ∙ parse_digits-hex_digit (((0 * 16 + a) * 16 + b) * 16 + c) d [] s

parse_int-hex4 : (n : ℕ) → n < 65536 → parse_int (hex4 n) ≡ positive n
unfolding parse_int hex4 signed
parse_int-hex4 n h =
    let (p, m) = hex_digit-signless (n / 4096 % 16) (omega arith) in
    let four =
      parse_digits-four (n / 4096 % 16) (n / 256 % 16) (n / 16 % 16) (n % 16) (omega arith)
        (omega arith) (omega arith) (omega arith) in
    rw (p, m) (ap (signed positive) four ∙ ap positive (omega (arith, h)))

take-append : (xs ys : List ℕ) → take (length xs) (xs ++ ys) ≡ xs
take-append [] ys = refl
take-append (x ∷ xs) ys = ap (λ zs. x ∷ zs) (take-append xs ys)

pub length-hex4 : (n : ℕ) → length (hex4 n) ≡ 4
unfolding hex4
length-hex4 n = omega arith

take-hex4 : (n : ℕ) (xs : List ℕ) → take 4 (hex4 n ++ xs) ≡ hex4 n
unfolding hex4
take-hex4 n xs = refl

drop-hex4 : (n : ℕ) (xs : List ℕ) → drop 4 (hex4 n ++ xs) ≡ xs
unfolding hex4
drop-hex4 n xs = refl

-- A packet is a length of all its bytes, and these bytes.
pub framed :
    (body rest : List ℕ) (at_eof : Bool)
    → length body + 4 < 65536
    → pkt_line_splitter ((hex4 (length body + 4) ++ body) ++ rest) at_eof
      ≡ token (length body + 4) (hex4 (length body + 4) ++ body)
unfolding pkt_line_splitter split_at
framed body rest at_eof h =
    let n = length body + 4 in
    let packet = hex4 n ++ body in
    let size : length packet ≡ n = omega (arith, length-append (hex4 n) body, length-hex4 n) in
    let long : ltb (length (packet ++ rest)) 4 ≡ false =
      ground (arith, length-append packet rest, size) in
    let small : ltb n 4 ≡ false = ground arith in
    let whole : ltb (length (packet ++ rest)) n ≡ false =
      ground (arith, length-append packet rest, size) in
    let prefix : take 4 (packet ++ rest) ≡ hex4 n =
      ap (take 4) (append_assoc (hex4 n) body rest) ∙ take-hex4 n (body ++ rest) in
    let front : take n (packet ++ rest) ≡ packet =
      ap (λ k. take k (packet ++ rest)) (sym size) ∙ take-append packet rest in
    rw (long, prefix, parse_int-hex4 n h) (rw (small, whole, front) refl)

pub data_of-hex4 : (n : ℕ) (body : List ℕ) → data_of (hex4 n ++ body) ≡ some body
unfolding data_of
data_of-hex4 n body =
    let long : ltb (length (hex4 n ++ body)) 4 ≡ false =
      ground (arith, length-append (hex4 n) body, length-hex4 n) in
    rw (long, drop-hex4 n body) refl

write_string-packet :
    (str packet : List ℕ)
    → write_string str ≡ some packet
    → (length str + 4 < 65536) × (hex4 (length str + 4) ++ str ≡ packet)
unfolding write_string max_pkt_size
write_string-packet str packet h = elim (Bool-cases (ltb 65520 (length str + 4))) [
  | inl b ↦ ground (arith, b, h)
  | inr b ↦ (ground (arith, b), ground (arith, b, h))
]

-- Whatever `WriteString` accepts, the splitter reads back as one packet, whatever comes behind it and
-- whether or not the input ends there, and its data are the string.
pub splitter-write_string :
    (str packet rest : List ℕ) (at_eof : Bool)
    → write_string str ≡ some packet
    → (pkt_line_splitter (packet ++ rest) at_eof ≡ token (length str + 4) packet)
      × (data_of packet ≡ some str)
splitter-write_string str packet rest at_eof h =
    let (small, made) = write_string-packet str packet h in
    subst
      (λ p.
        (pkt_line_splitter (p ++ rest) at_eof ≡ token (length str + 4) p) × (data_of p ≡ some str))
      made (framed str rest at_eof small, data_of-hex4 (length str + 4) str)
