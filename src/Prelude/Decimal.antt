-- ===== src/Prelude/Decimal.antt =====
-- strconv.Itoa and strconv.Atoi on a 64-bit int.
use Prim.Native.Nat.{ℕ, zero, suc, ◌+◌, ◌-◌, ◌*◌, ◌/◌, ◌%◌, ◌^◌, ◌≤◌, ◌<◌}
use mathlib.Core.Path.{◌≡◌, refl, ap, ◌∙◌}
use mathlib.Core.Logic.{◌≢◌, inl, inr}
use mathlib.Core.List.{[], ◌∷◌, ◌++◌}
use mathlib.Core.Bool.{Bool, true, false, ◌&&◌}
use mathlib.Core.Option.{Option, none, some}
use native.Mathlib.Omega.{arith}
use visual_tmux_client.Prelude.Tests.{ltb, leb, ◌==◌, nat_eq, if◌then◌else◌, Bool-cases}
use visual_tmux_client.Prelude.Lists.{All, All-append}
use visual_tmux_client.Prelude.Text.{Bytes, Lacks}
use visual_tmux_client.Prelude.Int.{ℤ, pos, negsuc}

abbrev pub is_digit : ℕ → Bool
is_digit c = leb b'0' c && leb c b'9'

-- On fuel, which the number itself is enough of.
digits : ℕ → ℕ → Bytes
digits zero n = []
digits (suc f) n =
    let front = digits f (n / 10) in
    if ltb n 10 then (b'0' + n) ∷ [] else front ++ (b'0' + n % 10) ∷ []

unfoldable pub itoa : ℕ → Bytes
unfolding digits
itoa n = digits (suc n) n

read_digits : ℕ → Bytes → Option ℕ
read_digits v [] = some v
read_digits v (c ∷ s) = if is_digit c then read_digits (10 * v + (c - b'0')) s else none

up_to : ℕ → Option ℕ → Option ℕ
up_to limit none = none
up_to limit (some n) = if leb n limit then some n else none

-- One digit at least, and no more than `limit`.
magnitude : ℕ → Bytes → Option ℕ
unfolding read_digits up_to
magnitude limit [] = none
magnitude limit (c ∷ s) = up_to limit (read_digits 0 (c ∷ s))

negative : ℕ → ℤ
negative zero = pos 0
negative (suc n) = negsuc n

signed : (ℕ → ℤ) → Option ℕ → Option ℤ
signed f none = none
signed f (some n) = some (f n)

abbrev pub max_int : ℕ
max_int = 2 ^ 63 - 1

unfoldable pub atoi : Bytes → Option ℤ
unfolding magnitude negative signed
atoi [] = none
atoi (c ∷ s) =
    if c == b'-'
    then signed negative (magnitude (2 ^ 63) s)
    else if c == b'+'
    then signed pos (magnitude max_int s)
    else signed pos (magnitude max_int (c ∷ s))

read_digits-snoc :
    (v : ℕ) (xs : Bytes) (a d : ℕ)
    → read_digits v xs ≡ some a
    → d < 10
    → read_digits v (xs ++ (b'0' + d) ∷ []) ≡ some (10 * a + d)
unfolding read_digits
read_digits-snoc v [] a d h lt = ground arith
read_digits-snoc v (x ∷ xs) a d h lt = ground (arith, read_digits-snoc (10 * v + (x - b'0')) xs a d)

read_digits-digits : (f n : ℕ) → n < f → read_digits 0 (digits f n) ≡ some n
unfolding digits
read_digits-digits zero n lt = absurd (omega arith)
read_digits-digits (suc f) n lt = elim (Bool-cases (ltb n 10)) [
  | inl small ↦ rw small (unfold read_digits in ground arith)
  | inr large ↦
      let ih = read_digits-digits f (n / 10) (ground arith) in
      rw large (
        read_digits-snoc 0 (digits f (n / 10)) (n / 10) (n % 10) ih (omega arith)
        ∙ ap some (omega arith))
]

digits-All : (f n : ℕ) → All (λ c. is_digit c ≡ true) (digits f n)
unfolding digits
digits-All zero n = tt
digits-All (suc f) n = elim (Bool-cases (ltb n 10)) [
  | inl small ↦ rw small (ground arith, tt)
  | inr large ↦ rw large (
      All-append _ (digits f (n / 10)) ((b'0' + n % 10) ∷ []) (digits-All f (n / 10))
        (ground arith, tt))
]

pub itoa-All : (n : ℕ) → All (λ c. is_digit c ≡ true) (itoa n)
unfolding itoa
itoa-All n = digits-All (suc n) n

snoc_nonempty : (xs : Bytes) (x : ℕ) → xs ++ x ∷ [] ≢ []
snoc_nonempty [] x e = cc
snoc_nonempty (y ∷ xs) x e = cc

pub itoa_nonempty : (n : ℕ) → itoa n ≢ []
unfolding itoa
itoa_nonempty n e = elim (Bool-cases (ltb n 10)) [
  | inl small ↦ cc (e, small)
  | inr large ↦ snoc_nonempty (digits n (n / 10)) (b'0' + n % 10) (rw large at e)
]

atoi_digits :
    (s : Bytes) (n : ℕ)
    → s ≢ []
    → All (λ c. is_digit c ≡ true) s
    → read_digits 0 s ≡ some n
    → n ≤ max_int
    → atoi s ≡ some (pos n)
unfolding atoi
atoi_digits [] n ne h r le = absurd (ne refl)
atoi_digits (c ∷ s) n ne h r le =
    let minus : (c == b'-') ≡ false = ground (arith, h.0) in
    let plus : (c == b'+') ≡ false = ground (arith, h.0) in rw (minus, plus, r) (ground arith)

-- Reading what was printed.
pub atoi-itoa : (n : ℕ) → n ≤ max_int → atoi (itoa n) ≡ some (pos n)
unfolding itoa
atoi-itoa n le =
    atoi_digits (itoa n) n (itoa_nonempty n) (itoa-All n)
      (read_digits-digits (suc n) n (omega arith)) le

-- A digit is no other character.
pub itoa-Lacks : (b n : ℕ) → is_digit b ≡ false → Lacks b (itoa n)
itoa-Lacks b n no_digit = lacks (itoa n) (itoa-All n)
  where
    lacks : (s : Bytes) → All (λ c. is_digit c ≡ true) s → Lacks b s
    lacks [] h = tt
    lacks (c ∷ s) h = (λ e. cc (h.0, no_digit, e), lacks s h.1)
