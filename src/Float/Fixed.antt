-- ===== src/Float/Fixed.antt =====
-- Whole trillionths, with `none` for NaN: floats that examples can compute with.
use market_trader.Prelude.{
  ℕ, suc, ◌+◌, ◌-◌, ◌*◌, ◌/◌, ◌^◌, ◌≡◌, refl, Bool, true, false, Option, none, some, List, [], ◌∷◌,
  arith, ltb, leb, nat_beq, if◌then◌else◌,
}
use market_trader.Float.Interface.{Float, IsOrdered}

-- `negsuc n` is -(n + 1).
pub data ℤ : Type 0 where
  pos : ℕ → ℤ
  negsuc : ℕ → ℤ

abbrev pub pos_part : ℤ → ℕ
pos_part (pos n) = n
pos_part (negsuc n) = 0

abbrev pub neg_part : ℤ → ℕ
neg_part (pos n) = 0
neg_part (negsuc n) = suc n

abbrev pub sub_ℕ : ℕ → ℕ → ℤ
sub_ℕ a b = if leb b a then pos (a - b) else negsuc (b - a - 1)

abbrev negate : ℤ → ℤ
negate a = sub_ℕ (neg_part a) (pos_part a)

abbrev magnitude : ℤ → ℕ
magnitude a = pos_part a + neg_part a

-- The product of the signs.
abbrev signed : ℤ → ℤ → ℕ → ℤ
signed (pos a) (pos b) n = pos n
signed (negsuc a) (negsuc b) n = pos n
signed a b n = sub_ℕ 0 n

abbrev scale : ℕ
scale = 1_000_000_000_000

abbrev pub Fixed : Type 0
Fixed = Option ℤ

abbrev lift : (ℤ → ℤ → ℤ) → Fixed → Fixed → Fixed
lift f (some a) (some b) = some (f a b)
lift f none b = none
lift f (some a) none = none

abbrev test : (ℤ → ℤ → Bool) → Fixed → Fixed → Bool
test f (some a) (some b) = f a b
test f none b = false
test f (some a) none = false

abbrev plus : Fixed → Fixed → Fixed
plus = lift λ a b. sub_ℕ (pos_part a + pos_part b) (neg_part a + neg_part b)

abbrev total : List Fixed → Fixed
total [] = some (pos 0)
total (x ∷ xs) = plus x (total xs)

abbrev below : ℤ → ℤ → Bool
below a b = ltb (pos_part a + neg_part b) (pos_part b + neg_part a)

abbrev upto : ℤ → ℤ → Bool
upto a b = leb (pos_part a + neg_part b) (pos_part b + neg_part a)

abbrev is_none : Fixed → Bool
is_none none = true
is_none (some a) = false

abbrev on_value : (ℤ → ℤ) → Fixed → Fixed
on_value f none = none
on_value f (some a) = some (f a)

-- The number `n`, as a float.
abbrev pub whole : ℕ → Fixed
whole n = some (pos (n * scale))

-- `n` hundredths.
abbrev pub cents : ℕ → Fixed
cents n = some (pos (n * 10_000_000_000))

instance abbrev pub fixed_float : Float Fixed
fixed_float = record {
  lit = λ m e. some (pos (m * scale / 10 ^ e));
  add = plus;
  sub = lift λ a b. sub_ℕ (pos_part a + neg_part b) (neg_part a + pos_part b);
  mul = lift λ a b. signed a b (magnitude a * magnitude b / scale);
  div = lift λ a b. signed a b (magnitude a * scale / magnitude b);
  neg = on_value negate;
  abs = on_value λ a. pos (magnitude a);
  lt = test below;
  le = test upto;
  eq = test λ a b. nat_beq (pos_part a + neg_part b) (pos_part b + neg_part a);
  is_nan = is_none;
  is_inf = λ x. false;
  sum = total;
  trunc = on_value λ a. signed a (pos 0) (magnitude a / scale * scale);
  round = λ x n. x;
  str = λ x. "";
}

pub Fixed-IsOrdered : IsOrdered Fixed
Fixed-IsOrdered = record {
  lt_irrefl = irrefl;
  lt_trans = lt_lt;
  lt_le_trans = lt_le;
  le_lt_trans = le_lt;
  le_trans = le_le;
  le_of_lt = weaken;
  le_refl = reflexive;
  le_of_not_lt = total_order;
}
  where
    irrefl : (a : Fixed) → test below a a ≡ false
    irrefl none = refl
    irrefl (some a) = ground arith

    lt_lt : (a b c : Fixed) → test below a b ≡ true → test below b c ≡ true → test below a c ≡ true
    lt_lt a b c h k = ground arith

    lt_le : (a b c : Fixed) → test below a b ≡ true → test upto b c ≡ true → test below a c ≡ true
    lt_le a b c h k = ground arith

    le_lt : (a b c : Fixed) → test upto a b ≡ true → test below b c ≡ true → test below a c ≡ true
    le_lt a b c h k = ground arith

    le_le : (a b c : Fixed) → test upto a b ≡ true → test upto b c ≡ true → test upto a c ≡ true
    le_le a b c h k = ground arith

    weaken : (a b : Fixed) → test below a b ≡ true → test upto a b ≡ true
    weaken a b h = ground arith

    reflexive : (a : Fixed) → is_none a ≡ false → test upto a a ≡ true
    reflexive a h = ground arith

    total_order :
        (a b : Fixed)
        → is_none a ≡ false
        → is_none b ≡ false
        → test below b a ≡ false
        → test upto a b ≡ true
    total_order a b h k e = ground arith
