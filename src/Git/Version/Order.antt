-- ===== src/Git/Version/Order.antt =====
-- The order of versions is that of numbers.
use gitally.Prelude.{
  drop, ℕ, ◌+◌, ◌*◌, ◌^◌, ◌<◌, ◌≤◌, ◌≡◌, subst, Bool, true, false, not, ◌&&◌, Option, none, some,
  List, [], ◌∷◌, ltb, arith, if◌then◌else◌, Bool-cases, inl, inr,
}
use gitally.Git.{Text, codes, has_prefix, eq_text}
use gitally.Git.Version.{
  Version, less_than, parse_uint32, digits, within_32_bits, parse_part, first_part, is_candidate,
  set_gl, set_rc, parse_rest, numbered, parse_split, split_n, parse_version,
}

abbrev pub final_digit : Bool → ℕ
final_digit true = 0
final_digit false = 1

-- A version as one number: the parts of 32 bits, with a release above its candidates.
abbrev pub rank : Version → ℕ
rank v =
    v.major * 2 ^ 97 + (v.minor * 2 ^ 65 + (v.patch * 2 ^ 33 + (final_digit v.rc * 2 ^ 32 + v.gl)))

abbrev pub IsBounded : Version → Type 0
IsBounded v = (v.major < 2 ^ 32) × (v.minor < 2 ^ 32) × (v.patch < 2 ^ 32) × (v.gl < 2 ^ 32)

digit-bound : (b : Bool) → final_digit b ≤ 1
digit-bound true = omega arith
digit-bound false = omega arith

step_97 :
    (a a' x x' : ℕ)
    → x < 2 ^ 97
    → x' < 2 ^ 97
    → (if ltb a a' then true else if ltb a' a then false else ltb x x')
      ≡ ltb (a * 2 ^ 97 + x) (a' * 2 ^ 97 + x')
step_97 a a' x x' h h' = ground arith

step_65 :
    (a a' x x' : ℕ)
    → x < 2 ^ 65
    → x' < 2 ^ 65
    → (if ltb a a' then true else if ltb a' a then false else ltb x x')
      ≡ ltb (a * 2 ^ 65 + x) (a' * 2 ^ 65 + x')
step_65 a a' x x' h h' = ground arith

step_33 :
    (a a' x x' : ℕ)
    → x < 2 ^ 33
    → x' < 2 ^ 33
    → (if ltb a a' then true else if ltb a' a then false else ltb x x')
      ≡ ltb (a * 2 ^ 33 + x) (a' * 2 ^ 33 + x')
step_33 a a' x x' h h' = ground arith

step_rc :
    (r r' : Bool) (g g' : ℕ)
    → g < 2 ^ 32
    → g' < 2 ^ 32
    → (if r && not r'
        then true
        else if not r && r'
        then false
        else if ltb g g'
        then true
        else if ltb g' g
        then false
        else false)
      ≡ ltb (final_digit r * 2 ^ 32 + g) (final_digit r' * 2 ^ 32 + g')
step_rc true true g g' h h' = ground arith
step_rc true false g g' h h' = ground arith
step_rc false true g g' h h' = ground arith
step_rc false false g g' h h' = ground arith

less_than-rank : (v w : Version) → IsBounded v → IsBounded w → less_than v w ≡ ltb (rank v) (rank w)
unfolding less_than
less_than-rank v w (a, b, c, d) (a', b', c', d') =
    let r = digit-bound v.rc in
    let r' = digit-bound w.rc in
    let x3 = final_digit v.rc * 2 ^ 32 + v.gl in
    let y3 = final_digit w.rc * 2 ^ 32 + w.gl in
    let x2 = v.patch * 2 ^ 33 + x3 in
    let y2 = w.patch * 2 ^ 33 + y3 in
    let x1 = v.minor * 2 ^ 65 + x2 in
    let y1 = w.minor * 2 ^ 65 + y2 in
    rw (step_rc v.rc w.rc v.gl w.gl d d') (
      rw (step_33 v.patch w.patch x3 y3 (omega (arith, r, d)) (omega (arith, r', d'))) (
        rw (step_65 v.minor w.minor x2 y2 (omega (arith, r, d, c)) (omega (arith, r', d', c'))) (
          step_97 v.major w.major x1 y1 (omega (arith, r, d, c, b))
            (omega (arith, r', d', c', b')))))

abbrev Small : Option ℕ → Type 0
Small none = Unit
Small (some n) = n < 2 ^ 32

abbrev SmallPart : Option (ℕ × Bool) → Type 0
SmallPart none = Unit
SmallPart (some (n, b)) = n < 2 ^ 32

abbrev AllBounded : Option Version → Type 0
AllBounded none = Unit
AllBounded (some v) = IsBounded v

within_32_bits-Small : (o : Option ℕ) → Small (within_32_bits o)
unfolding within_32_bits
within_32_bits-Small none = tt
within_32_bits-Small (some n) = elim (Bool-cases (ltb n (2 ^ 32))) [
  | inl b ↦ rw b (ground (arith, b))
  | inr b ↦ rw b tt
]

parse_uint32-Small : (s : Text) → Small (parse_uint32 s)
unfolding parse_uint32
parse_uint32-Small [] = tt
parse_uint32-Small (c ∷ s) = within_32_bits-Small (digits 0 (c ∷ s))

elim-Small :
    (o : Option ℕ) (b : Bool) → Small o → SmallPart (elim o [ none ↦ none | some n ↦ some (n, b) ])
elim-Small none b h = tt
elim-Small (some n) b h = h

parse_part-SmallPart : (s : Text) → SmallPart (parse_part s)
unfolding parse_part
parse_part-SmallPart s = elim (Bool-cases (eq_text s (codes "GIT"))) [
  | inl b ↦ rw b (omega arith)
  | inr b ↦
      let parts = split_n 45 1 s in
      rw b (
        elim-Small (parse_uint32 (first_part parts)) (is_candidate parts)
          (parse_uint32-Small (first_part parts)))
]

set_gl-AllBounded : (v : Version) (o : Option ℕ) → IsBounded v → Small o → AllBounded (set_gl v o)
unfolding set_gl
set_gl-AllBounded v none (a, b, c, d) s = tt
set_gl-AllBounded v (some n) (a, b, c, d) s = (a, b, c, s)

parse_rest-AllBounded :
    (v : Version) (rest : List Text) → IsBounded v → AllBounded (parse_rest v rest)
unfolding parse_rest set_rc
parse_rest-AllBounded v [] h = h
parse_rest-AllBounded v (part ∷ rest) h = elim (Bool-cases (has_prefix part (codes "rc"))) [
  | inl b ↦ rw b h
  | inr b ↦ rw b (elim (Bool-cases (has_prefix part (codes "gl"))) [
    | inl c ↦ rw c (set_gl-AllBounded v _ h (parse_uint32-Small (drop 2 part)))
    | inr c ↦ rw c h
  ])
]

numbered-AllBounded :
    (s : Text) (rest : List Text) (x y z : Option (ℕ × Bool))
    → SmallPart x
    → SmallPart y
    → SmallPart z
    → AllBounded (numbered s rest x y z)
unfolding numbered
numbered-AllBounded s rest (some (a, x)) (some (b, y)) (some (c, z)) h k l =
    parse_rest-AllBounded _ rest (h, k, l, omega arith)
numbered-AllBounded s rest none y z h k l = tt
numbered-AllBounded s rest (some x) none z h k l = tt
numbered-AllBounded s rest (some x) (some y) none h k l = tt

parse_split-AllBounded : (s : Text) (parts : List Text) → AllBounded (parse_split s parts)
unfolding parse_split
parse_split-AllBounded s [] = tt
parse_split-AllBounded s (a ∷ []) = tt
parse_split-AllBounded s (a ∷ b ∷ []) = tt
parse_split-AllBounded s (a ∷ b ∷ c ∷ rest) =
    numbered-AllBounded s rest (parse_part a) (parse_part b) (parse_part c) (parse_part-SmallPart a)
      (parse_part-SmallPart b) (parse_part-SmallPart c)

parse_version-IsBounded : (s : Text) (v : Version) → parse_version s ≡ some v → IsBounded v
unfolding parse_version
parse_version-IsBounded s v h = subst AllBounded h (parse_split-AllBounded s (split_n 46 3 s))

-- Of two versions that `parseVersion` has read, the one is `LessThan` the other just when its rank is
-- the smaller number: the parts, a release above its candidates, and GitLab's patch level, in this
-- order of significance.
pub parsed-less_than :
    (s t : Text) (v w : Version)
    → parse_version s ≡ some v
    → parse_version t ≡ some w
    → less_than v w ≡ ltb (rank v) (rank w)
parsed-less_than s t v w p q =
    less_than-rank v w (parse_version-IsBounded s v p) (parse_version-IsBounded t w q)
