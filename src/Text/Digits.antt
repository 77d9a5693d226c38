-- ===== src/Text/Digits.antt =====
-- Texts of digits: reading a printed number, and splitting a dotted text.
use debrid_nest.Prelude.{
  ℕ, zero, suc, ◌+◌, ◌/◌, ◌%◌, ◌≡◌, refl, ap, ◌∙◌, inl, inr, true, false, none, some, [], ◌∷◌, ◌++◌,
  append-nil, append_assoc, arith, ltb, eqb, Bool-cases, nat_eq, text_eq, length, is_empty, all,
  All, All-map,
}
use debrid_nest.Text.{Text, is_space, is_digit, trim, split}
use debrid_nest.Text.Number.{show_nat, to_number, read_digits}
use debrid_nest.Text.{trim_start, trim_end, split_from}
use debrid_nest.Text.Number.{digits_from, cut_point, unsigned_of, parse_number}
use debrid_nest.Text.Laws.{read_digits-show_nat, show_nat-nonempty}

abbrev pub IsDigits : Text → Type 0
IsDigits s = All (λ c. is_digit c ≡ true) s

digits_from-IsDigits : (f n : ℕ) (acc : Text) → IsDigits acc → IsDigits (digits_from f n acc)
unfolding digits_from
digits_from-IsDigits zero n acc h = h
digits_from-IsDigits (suc f) n acc h = elim (Bool-cases (ltb n 10)) [
  | inl small ↦ rw small (ground arith, h)
  | inr large ↦ rw large (digits_from-IsDigits f (n / 10) ((b'0' + n % 10) ∷ acc) (ground arith, h))
]

pub show_nat-IsDigits : (n : ℕ) → IsDigits (show_nat n)
unfolding show_nat
show_nat-IsDigits n = digits_from-IsDigits (n + 1) n [] tt

trim_start-solid : (s : Text) → All (λ c. is_space c ≡ false) s → trim_start s ≡ s
unfolding trim_start
trim_start-solid [] h = refl
trim_start-solid (c ∷ s) (p, h) = rw p refl

trim_end-solid : (s : Text) → All (λ c. is_space c ≡ false) s → trim_end s ≡ s
unfolding trim_end
trim_end-solid [] h = refl
trim_end-solid (c ∷ s) (p, h) = ground (arith, trim_end-solid s h)

-- A text without white space is not trimmed.
pub trim-solid : (s : Text) → All (λ c. is_space c ≡ false) s → trim s ≡ s
unfolding trim
trim-solid s h = ap trim_end (trim_start-solid s h) ∙ trim_end-solid s h

pub digit-solid : (c : ℕ) → is_digit c ≡ true → is_space c ≡ false
unfolding is_space
digit-solid c h = ground arith

cut_point-IsDigits : (s : Text) → IsDigits s → cut_point s ≡ (s, none)
unfolding cut_point
cut_point-IsDigits [] h = refl
cut_point-IsDigits (c ∷ s) (p, h) =
    let plain : eqb c b'.' ≡ false = ground arith in rw (plain, cut_point-IsDigits s h) refl

all-IsDigits : (s : Text) → IsDigits s → all is_digit s ≡ true
all-IsDigits [] h = refl
all-IsDigits (c ∷ s) (p, h) = rw (p, all-IsDigits s h) refl

parse_number-IsDigits :
    (s : Text)
    → IsDigits s
    → is_empty s ≡ false
    → parse_number s ≡ some (record { mantissa = read_digits 0 s; scale = 0 })
unfolding parse_number unsigned_of
parse_number-IsDigits [] h e = ground arith
parse_number-IsDigits (c ∷ s) (p, h) e =
    let unsigned : eqb c b'+' ≡ false = ground arith in
    let there_is : ltb 0 (length (c ∷ s)) ≡ true = ground arith in
    rw (unsigned, cut_point-IsDigits (c ∷ s) (p, h), p, all-IsDigits s h, there_is) refl

-- Reading a printed number gives the number.
pub to_number-show_nat :
    (n : ℕ) → to_number (show_nat n) ≡ some (record { mantissa = n; scale = 0 })
unfolding to_number
to_number-show_nat n =
    ap parse_number
      (trim-solid (show_nat n) (All-map digit-solid (show_nat n) (show_nat-IsDigits n)))
    ∙ parse_number-IsDigits (show_nat n) (show_nat-IsDigits n) (show_nat-nonempty n)
    ∙ ap (λ k. some (record { mantissa = k; scale = 0 })) (read_digits-show_nat n)

pub split_from-digits :
    (sep : ℕ) (cur s rest : Text)
    → IsDigits s
    → is_digit sep ≡ false
    → split_from sep cur (s ++ sep ∷ rest) ≡ (cur ++ s) ∷ split_from sep [] rest
unfolding split_from
split_from-digits sep cur [] rest h p =
    let same : eqb sep sep ≡ true = ground arith in rw (split_from, same, append-nil cur) refl
split_from-digits sep cur (c ∷ s) rest (d, h) p =
    let differs : eqb c sep ≡ false = ground arith in
    rw (split_from, differs)
      (split_from-digits sep (cur ++ c ∷ []) s rest h p
        ∙ ap (λ t. t ∷ split_from sep [] rest) (append_assoc cur (c ∷ []) s))

pub split_from-digits_end :
    (sep : ℕ) (cur s : Text)
    → IsDigits s
    → is_digit sep ≡ false
    → split_from sep cur s ≡ (cur ++ s) ∷ []
unfolding split_from
split_from-digits_end sep cur [] h p = rw (append-nil cur) refl
split_from-digits_end sep cur (c ∷ s) (d, h) p =
    let differs : eqb c sep ≡ false = ground arith in
    rw (split_from, differs)
      (split_from-digits_end sep (cur ++ c ∷ []) s h p
        ∙ ap (λ t. t ∷ []) (append_assoc cur (c ∷ []) s))

-- A row of digits before the separator is the first piece; alone, it is the only one.
pub split-digits :
    (sep : ℕ) (s rest : Text)
    → IsDigits s
    → is_digit sep ≡ false
    → split sep (s ++ sep ∷ rest) ≡ s ∷ split sep rest
unfolding split
split-digits sep s rest h p = split_from-digits sep [] s rest h p

pub split-digits_end :
    (sep : ℕ) (s : Text) → IsDigits s → is_digit sep ≡ false → split sep s ≡ s ∷ []
unfolding split
split-digits_end sep s h p = split_from-digits_end sep [] s h p
