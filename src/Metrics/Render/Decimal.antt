-- ===== src/Metrics/Render/Decimal.antt =====
-- The decimal numbers in the text of src/metrics.rs.
use tinkiva_sqllite_server.Prelude.{
  ℕ, zero, suc, ◌+◌, ◌-◌, ◌*◌, ◌/◌, ◌%◌, ◌<◌, ◌≡◌, refl, ◌∙◌, [], ◌∷◌, ◌++◌, ltb, arith, inl, inr,
  Bool-cases,
}
use tinkiva_sqllite_server.Metrics.Render.{Text, digits, decimal}

-- The number that digits stand for, behind a number that has been read.
abbrev pub read_digits : ℕ → Text → ℕ
read_digits read [] = read
read_digits read (c ∷ cs) = read_digits (read * 10 + (c - 48)) cs

read_digits-append :
    (read c : ℕ) (cs : Text) → read_digits read (cs ++ c ∷ []) ≡ read_digits read cs * 10 + (c - 48)
read_digits-append read c [] = refl
read_digits-append read c (d ∷ cs) = read_digits-append (read * 10 + (d - 48)) c cs

read_digits-digits : (fuel n : ℕ) → n < fuel → read_digits 0 (digits fuel n) ≡ n
unfolding digits
read_digits-digits zero n h = absurd (omega arith)
read_digits-digits (suc fuel) n h = elim (Bool-cases (ltb n 10)) [
  | inl small ↦ rw (small, digits) (omega arith)
  | inr large ↦
      let shorter : n / 10 < fuel = ground arith in
      rw (large, digits)
        (read_digits-append 0 (48 + n % 10) (digits fuel (n / 10))
          ∙ rw (read_digits-digits fuel (n / 10) shorter) (omega arith))
]

-- A number is read back from its text, so no two numbers have the same.
pub read_digits-decimal : (n : ℕ) → read_digits 0 (decimal n) ≡ n
unfolding decimal
read_digits-decimal n = read_digits-digits (suc n) n (omega arith)
