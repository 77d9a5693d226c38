-- ===== src/Server/Token.antt =====
-- A token that was pasted twice (collapseDuplicatedToken of index.js).
use debrid_nest.Prelude.{
  ℕ, ◌+◌, ◌/◌, ◌%◌, ◌≤◌, ◌≡◌, refl, ap, true, false, [], ◌∷◌, ◌++◌, arith, ltb, eqb, eq_refl,
  nat_eq, text_eq, length, take, drop, all, length-append, All,
}
use debrid_nest.Text.{Text, is_space}
use debrid_nest.Text.Digits.{trim-solid}
use debrid_nest.Server.{is_hex, collapse_duplicated_token}

hex-solid : (c : ℕ) → is_hex c ≡ true → is_space c ≡ false
unfolding is_space
hex-solid c h = ground arith

all-append_hex :
    (s t : Text) → all is_hex s ≡ true → all is_hex t ≡ true → all is_hex (s ++ t) ≡ true
all-append_hex [] t h k = k
all-append_hex (c ∷ s) t h k = ground (arith, all-append_hex s t)

All-hex : (s : Text) → all is_hex s ≡ true → All (λ c. is_space c ≡ false) s
All-hex [] h = tt
All-hex (c ∷ s) h =
    let first : is_hex c ≡ true = ground arith in
    let others : all is_hex s ≡ true = ground arith in (hex-solid c first, All-hex s others)

take-append_self : (s t : Text) → take (length s) (s ++ t) ≡ s
take-append_self [] t = refl
take-append_self (c ∷ s) t = ap (◌∷◌ c) (take-append_self s t)

drop-append_self : (s t : Text) → drop (length s) (s ++ t) ≡ t
drop-append_self [] t = refl
drop-append_self (c ∷ s) t = drop-append_self s t

-- A hexadecimal token of at least 32 digits that stands twice, one after the other, with no white
-- space between or around, is read as the token.
pub collapse_duplicated_token-twice :
    (token : Text)
    → all is_hex token ≡ true
    → 32 ≤ length token
    → collapse_duplicated_token (token ++ token) ≡ token
unfolding collapse_duplicated_token
collapse_duplicated_token-twice token hex long =
    let twice_hex : all is_hex (token ++ token) ≡ true = all-append_hex token token hex hex in
    let size : length (token ++ token) ≡ length token + length token = length-append token token in
    let half : length (token ++ token) / 2 ≡ length token = omega (arith, size) in
    let enough : ltb (length (token ++ token)) 64 ≡ false = ground (arith, size) in
    let even : eqb (length (token ++ token) % 2) 0 ≡ true = ground (arith, size) in
    rw
      (
        trim-solid (token ++ token) (All-hex (token ++ token) twice_hex),
        enough,
        even,
        twice_hex,
        half,
        take-append_self token token,
        drop-append_self token token,
        eq_refl token,
      )
      refl
