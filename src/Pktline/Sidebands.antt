-- ===== src/Pktline/Sidebands.antt =====
-- The packets of a band carry the data, in order.
use gitally.Prelude.{
  ℕ, zero, suc, ◌+◌, ◌≤◌, ◌≡◌, refl, List, [], ◌∷◌, ◌++◌, arith, length, take, drop, length-append,
  ap, sym, ◌∙◌, subst, Bool,
}
use gitally.Pktline.{
  max_pkt_size, hex4, chunk_size, chunk, write_band_loop, write_band, band_of, sideband_of,
  sideband, token, pkt_line_splitter,
}
use gitally.Pktline.RoundTrip.{data_of-hex4, length-hex4, framed}

-- The packets of a band that carry some data: each is split off whatever comes behind it, is read back
-- as a non-empty part of the data, and is no longer than a packet may be.
pub data Carries (band : ℕ) : List (List ℕ) → List ℕ → Type 0 where
  nothing : Carries band [] []
  packet :
      (p c : List ℕ) {ps : List (List ℕ)} {rest : List ℕ}
      → ((behind : List ℕ) (at_eof : Bool)
          → pkt_line_splitter (p ++ behind) at_eof ≡ token (length p) p)
      → sideband p ≡ band_of band c
      → length p ≤ 65520
      → 1 ≤ length c
      → Carries band ps rest
      → Carries band (p ∷ ps) (c ++ rest)

take-drop : (n : ℕ) (xs : List ℕ) → take n xs ++ drop n xs ≡ xs
take-drop zero xs = refl
take-drop (suc n) [] = refl
take-drop (suc n) (x ∷ xs) = ap (λ zs. x ∷ zs) (take-drop n xs)

length-take : (n : ℕ) (xs : List ℕ) → n ≤ length xs → length (take n xs) ≡ n
length-take zero xs h = refl
length-take (suc n) [] h = absurd (omega (arith, h))
length-take (suc n) (x ∷ xs) h = omega (arith, length-take n xs (omega (arith, h)))

length-drop : (n : ℕ) (xs : List ℕ) → n ≤ length xs → length (drop n xs) + n ≡ length xs
length-drop zero xs h = omega arith
length-drop (suc n) [] h = absurd (omega (arith, h))
length-drop (suc n) (x ∷ xs) h = omega (arith, length-drop n xs (omega (arith, h)))

sideband-chunk : (band : ℕ) (c : List ℕ) → sideband (chunk band c) ≡ band_of band c
unfolding sideband chunk sideband_of
sideband-chunk band c = ap sideband_of (data_of-hex4 (length c + 5) (band ∷ c))

length-chunk : (band : ℕ) (c : List ℕ) → length (chunk band c) ≡ length c + 5
unfolding chunk
length-chunk band c =
    omega (arith, length-append (hex4 (length c + 5)) (band ∷ c), length-hex4 (length c + 5))

splitter-chunk :
    (band : ℕ) (c : List ℕ)
    → length c ≤ 65515
    → (behind : List ℕ) (at_eof : Bool)
    → pkt_line_splitter (chunk band c ++ behind) at_eof
      ≡ token (length (chunk band c)) (chunk band c)
splitter-chunk band c h behind at_eof =
    let size : length (band ∷ c) + 4 ≡ length c + 5 = omega arith in
    let split =
      subst
        (λ n.
          pkt_line_splitter ((hex4 n ++ band ∷ c) ++ behind) at_eof ≡ token n (hex4 n ++ band ∷ c))
        size (framed (band ∷ c) behind at_eof (omega (arith, h))) in
    unfold chunk in
    (split ∙ ap (λ n. token n (hex4 (length c + 5) ++ band ∷ c)) (sym (length-chunk band c)))

chunk_size-bounds :
    (b : ℕ) (bs : List ℕ)
    → (1 ≤ chunk_size (b ∷ bs))
      × (chunk_size (b ∷ bs) ≤ length (b ∷ bs))
      × (chunk_size (b ∷ bs) ≤ 65515)
unfolding chunk_size max_pkt_size
chunk_size-bounds b bs = (ground arith, ground arith, ground arith)

write_band_loop-Carries :
    (fuel band : ℕ) (xs : List ℕ)
    → length xs ≤ fuel
    → Carries band (write_band_loop fuel band xs) xs
unfolding write_band_loop
write_band_loop-Carries zero band [] h = Carries.nothing
write_band_loop-Carries zero band (b ∷ bs) h = absurd (omega (arith, h))
write_band_loop-Carries (suc fuel) band [] h = Carries.nothing
write_band_loop-Carries (suc fuel) band (b ∷ bs) h =
    let k = chunk_size (b ∷ bs) in
    let c = take k (b ∷ bs) in
    let (least, most, room) = chunk_size-bounds b bs in
    let size = length-take k (b ∷ bs) most in
    let left : length (drop k (b ∷ bs)) ≤ fuel =
      omega (arith, h, least, length-drop k (b ∷ bs) most) in
    subst (Carries band (chunk band c ∷ write_band_loop fuel band (drop k (b ∷ bs))))
      (take-drop k (b ∷ bs))
      (Carries.packet (chunk band c) c (splitter-chunk band c (omega (arith, size, room)))
        (sideband-chunk band c) (omega (arith, length-chunk band c, size, room))
        (omega (arith, size, least)) (write_band_loop-Carries fuel band (drop k (b ∷ bs)) left))

-- `writeBand` writes all of the data: the splitter splits each of its packets off whatever comes behind
-- it, they are read back as side-band packets of the band, none of them empty and none longer than
-- 65520 bytes, and together they carry the data in order.
pub write_band-Carries : (band : ℕ) (xs : List ℕ) → Carries band (write_band band xs) xs
unfolding write_band
write_band-Carries band xs = write_band_loop-Carries (length xs) band xs (omega arith)
