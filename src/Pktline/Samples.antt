-- ===== src/Pktline/Samples.antt =====
-- Framed strings, and the theorems applied to them.
use gitally.Prelude.{ℕ, ◌≡◌, refl, true, some, List, [], ◌∷◌, ◌++◌}
use gitally.Pktline.{
  token, pkt_line_splitter, write_string, hex4, hex_digit, max_pkt_size, data_of, write_band,
  pkt_flush, pkt_delim, pkt_done, is_flush, bytes_equal, split_at, parse_int, parse_digits,
  add_digit, digit_value, signed, max_sideband_data,
}
use gitally.Pktline.RoundTrip.{splitter-write_string}
use gitally.Pktline.Sidebands.{Carries, write_band-Carries}

-- "done\n", and the packet of it.
abbrev done : List ℕ
done = 100 ∷ 111 ∷ 110 ∷ 101 ∷ 10 ∷ []

pkt_done_framed : write_string done ≡ some pkt_done
unfolding write_string max_pkt_size hex4 hex_digit pkt_done
pkt_done_framed = refl

pkt_flush_split : pkt_line_splitter (pkt_flush ++ pkt_delim) true ≡ token 4 pkt_flush
unfolding pkt_line_splitter pkt_flush pkt_delim split_at parse_int parse_digits add_digit
    digit_value signed
pkt_flush_split = refl

pkt_flush_found : is_flush pkt_flush ≡ true
unfolding is_flush pkt_flush bytes_equal
pkt_flush_found = refl

max_sideband_data_size : max_sideband_data ≡ 65515
unfolding max_sideband_data max_pkt_size
max_sideband_data_size = refl

splitter-write_string_example :
    (pkt_line_splitter (pkt_done ++ 48 ∷ []) true ≡ token 9 pkt_done)
    × (data_of pkt_done ≡ some done)
splitter-write_string_example = splitter-write_string done pkt_done (48 ∷ []) true pkt_done_framed

write_band-Carries_example : Carries 2 (write_band 2 done) done
write_band-Carries_example = write_band-Carries 2 done
