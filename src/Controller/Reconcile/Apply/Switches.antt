-- ===== src/Controller/Reconcile/Apply/Switches.antt =====
-- The instance number in the name of a switch component, and its text.
use Prim.Native.Nat.{zero, suc}
use Prim.Native.Char.{code}
use Prim.Native.String.{◌++◌ as str_append}
use Prim.Native.String.append
use shelly_operator.Base.{
  ℕ, ◌+◌, ◌-◌, ◌*◌, ◌/◌, ◌%◌, ◌^◌, ◌<◌, pos, String, some, List, [], ◌∷◌, ◌++◌, ◌≡◌, refl, ap, ◌∙◌,
  ltb, leb, ◌&&◌, codes, itoa, atoi, arith, Bool-cases, inl, inr, parse_digits, parse_decimal,
  positive_int, digit, digits,
}
use shelly_operator.Controller.Reconcile.Apply.{switch_id}

codes-append : (s t : String) → codes (str_append s t) ≡ codes s ++ codes t
codes-append String.[] t = ap codes (append.nil t)
codes-append (String.◌∷◌ c s) t =
    ap codes (append.cons c s t) ∙ ap (λ l. code c ∷ l) (codes-append s t)

-- A digit after a number that was parsed.
parse_digits-append :
    (n m d : ℕ) (cs : List ℕ)
    → d < 10
    → parse_digits n cs ≡ some m
    → parse_digits n (cs ++ (48 + d) ∷ []) ≡ some (10 * m + d)
unfolding parse_digits
parse_digits-append n m d [] h e = ground arith
parse_digits-append n m d (c ∷ cs) h e = elim (Bool-cases (leb 48 c && leb c 57)) [
  | inl k ↦ rw k (parse_digits-append (10 * n + (c - 48)) m d cs h (rw k at e))
  | inr k ↦ cc (rw k at e)
]

codes-digit : (d : ℕ) → d < 10 → codes (digit d) ≡ (48 + d) ∷ []
codes-digit zero h = refl
codes-digit (suc zero) h = refl
codes-digit (suc (suc zero)) h = refl
codes-digit (suc (suc (suc zero))) h = refl
codes-digit (suc (suc (suc (suc zero)))) h = refl
codes-digit (suc (suc (suc (suc (suc zero))))) h = refl
codes-digit (suc (suc (suc (suc (suc (suc zero)))))) h = refl
codes-digit (suc (suc (suc (suc (suc (suc (suc zero))))))) h = refl
codes-digit (suc (suc (suc (suc (suc (suc (suc (suc zero)))))))) h = refl
codes-digit (suc (suc (suc (suc (suc (suc (suc (suc (suc zero))))))))) h = refl
codes-digit (suc (suc (suc (suc (suc (suc (suc (suc (suc (suc d)))))))))) h = absurd (omega arith)

parse-digit : (n : ℕ) → n < 10 → parse_digits 0 (codes (digit n)) ≡ some n
unfolding parse_digits
parse-digit n h = rw (codes-digit n h) (ground arith)

parse-digits : (fuel n : ℕ) → n < fuel → parse_digits 0 (codes (digits fuel n)) ≡ some n
unfolding digits
parse-digits zero n h = absurd (omega arith)
parse-digits (suc fuel) n h = elim (Bool-cases (ltb n 10)) [
  | inl e ↦ rw e (parse-digit n (ground arith))
  | inr e ↦
      let ih = parse-digits fuel (n / 10) (ground arith) in
      rw e (
        rw (codes-append (digits fuel (n / 10)) (digit (n % 10))) (
          rw (codes-digit (n % 10) (omega arith))
            (parse_digits-append 0 (n / 10) (n % 10) _ (omega arith) ih ∙ ap some (omega arith))))
]

-- A text that denotes a number starts with a digit, not with a sign.
atoi_of_digits :
    (n : ℕ) (cs : List ℕ) → 0 < n → parse_digits 0 cs ≡ some n → atoi cs ≡ positive_int (some n)
unfolding atoi parse_decimal parse_digits
atoi_of_digits n [] h e = ground arith
atoi_of_digits n (c ∷ cs) h e = ground arith

codes-itoa : (n : ℕ) → parse_digits 0 (codes (itoa n)) ≡ some n
unfolding itoa
codes-itoa n = parse-digits (suc n) n (omega arith)

atoi-itoa : (n : ℕ) → atoi (codes (itoa n)) ≡ positive_int (some n)
unfolding atoi itoa digits parse_decimal parse_digits
atoi-itoa zero = refl
atoi-itoa (suc n) = atoi_of_digits (suc n) (codes (itoa (suc n))) (omega arith) (codes-itoa (suc n))

-- The name of a switch component, "switch:" and the decimal text of a number below 2 ^ 63, is read back
-- as that number.
pub switch_id-itoa : (n : ℕ) → n < 2 ^ 63 → switch_id (str_append "switch:" (itoa n)) ≡ some (pos n)
unfolding switch_id
switch_id-itoa n h = rw (codes-append "switch:" (itoa n)) (rw (atoi-itoa n) (ground arith))
