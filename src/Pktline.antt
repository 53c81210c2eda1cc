-- ===== src/Pktline.antt =====
-- internal/git/pktline/pktline.go: the pkt-line format of Git. A byte is a number below 256. The
-- writer underneath is left out: what is written is the result.
pub mod RoundTrip
pub mod Sidebands
pub mod Samples
use gitally.Prelude.{
  ℕ, zero, suc, ◌+◌, ◌-◌, ◌*◌, ◌/◌, ◌%◌, Bool, true, false, not, ◌&&◌, ◌||◌, Option, none, some,
  List, [], ◌∷◌, ◌++◌, ltb, leb, ◌==◌, if◌then◌else◌, length, take, drop,
}

unfoldable pub max_pkt_size : ℕ
max_pkt_size = 65520

unfoldable pub max_sideband_data : ℕ
unfolding max_pkt_size
max_sideband_data = max_pkt_size - 5

-- `%x` of a number below 16.
hex_digit : ℕ → ℕ
hex_digit n = if ltb n 10 then 48 + n else 87 + n

-- `%04x` of a number below 65536.
pub hex4 : ℕ → List ℕ
unfolding hex_digit
hex4 n =
    hex_digit (n / 4096 % 16)
    ∷ hex_digit (n / 256 % 16)
    ∷ hex_digit (n / 16 % 16)
    ∷ hex_digit (n % 16)
    ∷ []

digit_value : ℕ → Option ℕ
digit_value b =
    if leb 48 b && leb b 57
    then some (b - 48)
    else if leb 97 b && leb b 102
    then some (b - 87)
    else if leb 65 b && leb b 70
    then some (b - 55)
    else none

add_digit : Option ℕ → Option ℕ → Option ℕ
add_digit (some n) (some d) = some (n * 16 + d)
add_digit _ _ = none

parse_digits : Option ℕ → List ℕ → Option ℕ
unfolding add_digit digit_value
parse_digits n [] = n
parse_digits n (b ∷ bs) = parse_digits (add_digit n (digit_value b)) bs

-- A number with its sign: what `strconv.ParseInt` reads in base 16.
pub data Parsed : Type 0 where
  unreadable : Parsed
  positive negative : ℕ → Parsed

signed : (ℕ → Parsed) → Option ℕ → Parsed
signed sign none = unreadable
signed sign (some n) = sign n

-- Of four bytes; no number of at most four digits is out of range.
parse_int : List ℕ → Parsed
unfolding signed parse_digits
parse_int [] = unreadable
parse_int (b ∷ bs) =
    if b == 43
    then signed positive (parse_digits (some 0) bs)
    else if b == 45
    then signed negative (parse_digits (some 0) bs)
    else signed positive (parse_digits (some 0) (b ∷ bs))

pub data Split : Type 0 where
  wants_more incomplete_prefix bad_length invalid_length unexpected_eof : Split
  token : ℕ → List ℕ → Split

split_at : List ℕ → Bool → Parsed → Split
split_at data_ at_eof unreadable = bad_length
split_at data_ at_eof (negative zero) = token 4 (take 4 data_)
split_at data_ at_eof (negative (suc n)) = invalid_length
split_at data_ at_eof (positive n) =
    if ltb n 4
    then token 4 (take 4 data_)
    else if ltb (length data_) n
    then if at_eof then unexpected_eof else wants_more
    else token n (take n data_)

pub pkt_line_splitter : List ℕ → Bool → Split
unfolding split_at parse_int
pkt_line_splitter data_ at_eof =
    if ltb (length data_) 4
    then if at_eof && ltb 0 (length data_) then incomplete_prefix else wants_more
    else split_at data_ at_eof (parse_int (take 4 data_))

-- `none` is the error of a string that is too large.
pub write_string : List ℕ → Option (List ℕ)
unfolding hex4 max_pkt_size
write_string str =
    if ltb max_pkt_size (length str + 4) then none else some (hex4 (length str + 4) ++ str)

-- `none` where the slice is out of range, which panics.
pub data_of : List ℕ → Option (List ℕ)
data_of pkt = if ltb (length pkt) 4 then none else some (drop 4 pkt)

pub pkt_flush : List ℕ
pkt_flush = 48 ∷ 48 ∷ 48 ∷ 48 ∷ []

pub pkt_delim : List ℕ
pkt_delim = 48 ∷ 48 ∷ 48 ∷ 49 ∷ []

pub pkt_done : List ℕ
pkt_done = 48 ∷ 48 ∷ 48 ∷ 57 ∷ 100 ∷ 111 ∷ 110 ∷ 101 ∷ 10 ∷ []

bytes_equal : List ℕ → List ℕ → Bool
bytes_equal [] [] = true
bytes_equal [] (y ∷ ys) = false
bytes_equal (x ∷ xs) [] = false
bytes_equal (x ∷ xs) (y ∷ ys) = x == y && bytes_equal xs ys

pub is_flush : List ℕ → Bool
unfolding bytes_equal pkt_flush
is_flush pkt = bytes_equal pkt pkt_flush

chunk_size : List ℕ → ℕ
unfolding max_pkt_size
chunk_size data_ = if ltb (max_pkt_size - 5) (length data_) then max_pkt_size - 5 else length data_

chunk : ℕ → List ℕ → List ℕ
unfolding hex4
chunk band c = hex4 (length c + 5) ++ band ∷ c

-- The loop of `writeBand`, as the packets that it writes; each round takes a byte or more, so the
-- length of the data is fuel enough.
write_band_loop : ℕ → ℕ → List ℕ → List (List ℕ)
unfolding chunk_size chunk
write_band_loop zero band data_ = []
write_band_loop (suc fuel) band [] = []
write_band_loop (suc fuel) band (b ∷ bs) =
    chunk band (take (chunk_size (b ∷ bs)) (b ∷ bs))
    ∷ write_band_loop fuel band (drop (chunk_size (b ∷ bs)) (b ∷ bs))

pub write_band : ℕ → List ℕ → List (List ℕ)
unfolding write_band_loop
write_band band data_ = write_band_loop (length data_) band data_

pub data Band : Type 0 where
  not_sideband out_of_range : Band
  band_of : ℕ → List ℕ → Band

-- What `EachSidebandPacket` makes of a packet.
sideband_of : Option (List ℕ) → Band
sideband_of none = out_of_range
sideband_of (some []) = not_sideband
sideband_of (some (b ∷ bs)) = band_of b bs

pub sideband : List ℕ → Band
unfolding sideband_of data_of
sideband pkt = sideband_of (data_of pkt)
