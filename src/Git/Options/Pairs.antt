-- ===== src/Git/Options/Pairs.antt =====
-- A configuration pair on the command line is read back as the same pair.
use gitally.Prelude.{
  ℕ, ◌≡◌, ◌≢◌, refl, sym, ap, ◌∙◌, true, false, some, List, [], ◌∷◌, ◌++◌, ◌==◌, arith, Bool-cases,
  inl, inr, All,
}
use gitally.Git.{Text, codes, is_alnum}
use gitally.Git.Options.{
  CommandError, valid, invalid, ConfigPair, config_pair, cut, KeyState, at_start, in_section,
  at_dot, in_part, stuck, is_key_char, key_step, match_key, is_in_part, is_global_key, global_args,
  convert_pair, convert_config_options,
}

abbrev IsNot : ℕ → ℕ → Type 0
IsNot c d = (d == c) ≡ false

match_key-stuck : (s : Text) → match_key stuck s ≡ stuck
unfolding match_key key_step
match_key-stuck [] = refl
match_key-stuck (c ∷ s) = match_key-stuck s

key_step-equals : (k : KeyState) → key_step k 61 ≡ stuck
unfolding key_step is_key_char is_alnum
key_step-equals at_start = refl
key_step-equals in_section = refl
key_step-equals at_dot = refl
key_step-equals in_part = refl
key_step-equals stuck = refl

-- A key has no equals sign.
match_key-All : (k : KeyState) (s : Text) → is_in_part (match_key k s) ≡ true → All (IsNot 61) s
unfolding match_key is_in_part
match_key-All k [] h = tt
match_key-All k (c ∷ s) h = elim (Bool-cases (c == 61)) [
  | inr b ↦ (b, match_key-All (key_step k c) s h)
  | inl b ↦ absurd (clash (sym (ap is_in_part (lost (ground (arith, b)))) ∙ h))
]
  where
    clash : false ≢ true
    clash q = cc

    lost : c ≡ 61 → match_key (key_step k c) s ≡ stuck
    lost q =
        ap (λ d. match_key (key_step k d) s) q
        ∙ ap (λ x. match_key x s) (key_step-equals k)
        ∙ match_key-stuck s

cut-append : (c : ℕ) (s t : Text) → All (IsNot c) s → cut c (s ++ c ∷ t) ≡ some (s, t)
unfolding cut
cut-append c [] t h = ground arith
cut-append c (d ∷ s) t h = rw (h.0, cut-append c s t h.1) refl

abbrev pub as_argument : ConfigPair → Text
as_argument p = p.key ++ 61 ∷ p.value

-- When a pair is valid as a global option, its argument after `-c` is the key, an equals sign and the
-- value, and cutting that at its first equals sign, as `ConvertConfigOptions` does, gives the pair.
pub global_args-convert :
    (p : ConfigPair) (args : List Text)
    → global_args (config_pair p) ≡ valid args
    → (args ≡ codes "-c" ∷ as_argument p ∷ [])
      × (convert_config_options (as_argument p ∷ []) ≡ valid (p ∷ []))
unfolding global_args convert_config_options convert_pair is_global_key
global_args-convert p args h = elim (Bool-cases (is_in_part (match_key at_start p.key))) [
  | inr b ↦ absurd (clash (sym h ∙ rw b refl))
  | inl b ↦ (
    valid_eq args (codes "-c" ∷ as_argument p ∷ []) (sym h ∙ rw b refl),
    rw (cut-append 61 p.key p.value (match_key-All at_start p.key b)) refl,
  )
]
  where
    clash : valid args ≢ invalid (CommandError.invalid_key p.key)
    clash q = cc

    valid_eq : (a b : List Text) → valid a ≡ valid b → a ≡ b
    valid_eq a b q = cc
