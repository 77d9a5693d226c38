-- ===== src/Text/Laws.antt =====
-- Laws of the text functions.
use debrid_nest.Prelude.{
  ℕ, zero, suc, ◌+◌, ◌/◌, ◌%◌, ◌<◌, ◌≡◌, refl, sym, ap, ◌∙◌, inl, inr, Bool, true, false, ◌&&◌, [],
  ◌∷◌, ◌++◌, arith, ltb, if◌then◌else◌, Bool-cases, nat_eq, text_eq, is_empty, All, All-append,
}
use debrid_nest.Text.{Text, is_space, trim, replace_runs}
use native.Mathlib.Numerals.{add-one}
use debrid_nest.Text.Number.{show_nat, read_digits}
use debrid_nest.Text.{replace_runs_from, trim_start, trim_end}
use debrid_nest.Text.Number.{digits_from}

module _ {κ} (P : ℕ → Type κ) where
  All-replace_runs_from :
      (p : ℕ → Bool) (with : Text) (inside : Bool) (s : Text)
      → All P with
      → All (λ c. p c ≡ false → P c) s
      → All P (replace_runs_from p with inside s)
  unfolding replace_runs_from
  All-replace_runs_from p with inside [] hw h = tt
  All-replace_runs_from p with inside (c ∷ s) hw (q, h) = elim (Bool-cases (p c)) [
    | inr plain ↦ rw plain (q plain, rw plain at (All-replace_runs_from p with (p c) s hw h))
    | inl run ↦ rw run (start inside (rw run at (All-replace_runs_from p with (p c) s hw h)))
  ]
    where
      start :
          (b : Bool)
          → All P (replace_runs_from p with true s)
          → All P (
              if b
              then replace_runs_from p with true s
              else with ++ replace_runs_from p with true s)
      start true k = k
      start false k = All-append P with _ hw k

  -- What is left of a text consists of the characters outside the class, and the replacement.
  pub All-replace_runs :
      (p : ℕ → Bool) (with s : Text)
      → All P with
      → All (λ c. p c ≡ false → P c) s
      → All P (replace_runs p with s)
  unfolding replace_runs
  All-replace_runs p with s hw h = All-replace_runs_from p with false s hw h

  All-trim_start : (s : Text) → All P s → All P (trim_start s)
  unfolding trim_start
  All-trim_start [] h = tt
  All-trim_start (c ∷ s) (q, h) = elim (Bool-cases (is_space c)) [
    | inl blank ↦ rw blank (All-trim_start s h)
    | inr solid ↦ rw solid (q, h)
  ]

  All-trim_end : (s : Text) → All P s → All P (trim_end s)
  unfolding trim_end
  All-trim_end [] h = tt
  All-trim_end (c ∷ s) (q, h) = elim (Bool-cases (is_empty (trim_end s) && is_space c)) [
    | inl blank ↦ rw blank tt
    | inr solid ↦ rw solid (q, All-trim_end s h)
  ]

  pub All-trim : (s : Text) → All P s → All P (trim s)
  unfolding trim
  All-trim s h = All-trim_end _ (All-trim_start s h)

read_digits-digits_from :
    (f n : ℕ) (acc : Text) → n < f → read_digits 0 (digits_from f n acc) ≡ read_digits n acc
unfolding digits_from read_digits
read_digits-digits_from zero n acc h = absurd (omega arith)
read_digits-digits_from (suc f) n acc h = elim (Bool-cases (ltb n 10)) [
  | inl small ↦ rw small (ap (λ k. read_digits k acc) (omega arith))
  | inr large ↦ rw large (
      read_digits-digits_from f (n / 10) ((b'0' + n % 10) ∷ acc) (ground arith)
      ∙ ap (λ k. read_digits k acc) (omega arith))
]

-- Reading the decimal digits of a number gives the number back.
pub read_digits-show_nat : (n : ℕ) → read_digits 0 (show_nat n) ≡ n
unfolding show_nat read_digits
read_digits-show_nat n = read_digits-digits_from (n + 1) n [] (omega arith)

pub show_nat-injective : (n m : ℕ) → show_nat n ≡ show_nat m → n ≡ m
show_nat-injective n m e =
    sym (read_digits-show_nat n) ∙ ap (read_digits 0) e ∙ read_digits-show_nat m

digits_from-nonempty : (f n d : ℕ) (acc : Text) → is_empty (digits_from f n (d ∷ acc)) ≡ false
unfolding digits_from
digits_from-nonempty zero n d acc = refl
digits_from-nonempty (suc f) n d acc = elim (Bool-cases (ltb n 10)) [
  | inl small ↦ rw small
  | inr large ↦ rw large (digits_from-nonempty f (n / 10) (b'0' + n % 10) (d ∷ acc))
]

digits_from-suc : (f n : ℕ) → is_empty (digits_from (suc f) n []) ≡ false
unfolding digits_from
digits_from-suc f n = elim (Bool-cases (ltb n 10)) [
  | inl small ↦ rw small
  | inr large ↦ rw large (digits_from-nonempty f (n / 10) (b'0' + n % 10) [])
]

pub show_nat-nonempty : (n : ℕ) → is_empty (show_nat n) ≡ false
unfolding show_nat
show_nat-nonempty n = rw add-one (digits_from-suc n n)
