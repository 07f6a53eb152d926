-- ===== src/Config/ChainIds.antt =====
-- Chain IDs as texts, in src/config.go.
use zk_pig.Base.{
  ℕ, suc, ℤ, pos, negsuc, Option, some, [], ◌∷◌, true, false, ◌==◌, Bytes, decimal, AllDigits,
  decimal-AllDigits, decimal-cons, dec_value-decimal, ok, ◌≡◌, refl, ap, ◌∙◌, arith,
}
use zk_pig.Config.{
  Text, is_empty, all_digits, read_digits, minus, signed, set_string, or_invalid, parse_chain_id,
}

all_digits-AllDigits : (bs : Bytes) → AllDigits bs → all_digits bs ≡ true
all_digits-AllDigits [] d = refl
all_digits-AllDigits (b ∷ bs) (lo, hi, d) = rw (all_digits-AllDigits bs d) (ground arith)

-- `big.Int.String`
abbrev pub chain_id_text : ℤ → Text
chain_id_text (pos n) = decimal n
chain_id_text (negsuc n) = 45 ∷ decimal (suc n)

read_digits-decimal : (n : ℕ) → read_digits (decimal n) ≡ some n
read_digits-decimal n =
    let (b, bs, e) = decimal-cons n in
    let digits : all_digits (decimal n) ≡ true =
      all_digits-AllDigits (decimal n) (decimal-AllDigits n) in
    let some_digit : is_empty (decimal n) ≡ false = ap is_empty e in
    rw (some_digit, digits, dec_value-decimal n) refl

-- No digit is a sign.
set_string-digits :
    (bs : Bytes) (b : ℕ) (rest : Bytes)
    → bs ≡ b ∷ rest
    → AllDigits bs
    → set_string bs ≡ signed pos (read_digits bs)
unfolding set_string
set_string-digits [] b rest e d = cc
set_string-digits (c ∷ cs) b rest e (lo, hi, d) =
    let not_minus : (c == 45) ≡ false = ground arith in
    let not_plus : (c == 43) ≡ false = ground arith in rw (not_minus, not_plus) refl

-- Parsing what a number prints as gives the number.
pub parse_chain_id-chain_id_text : (id : ℤ) → parse_chain_id (chain_id_text id) ≡ ok id
unfolding parse_chain_id set_string
parse_chain_id-chain_id_text (pos n) =
    let (b, bs, e) = decimal-cons n in
    ap or_invalid (
      set_string-digits (decimal n) b bs e (decimal-AllDigits n)
      ∙ ap (signed pos) (read_digits-decimal n))
parse_chain_id-chain_id_text (negsuc n) =
    ap (λ (o : Option ℕ). or_invalid (signed minus o)) (read_digits-decimal (suc n))
