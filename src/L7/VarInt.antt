-- ===== src/L7/VarInt.antt =====
-- internal/l7/patterns.go, `readVarInt`, against the encoding of the protocol.
use route_x_reverse_proxy.Common.{
  ℕ, zero, suc, ◌+◌, ◌*◌, ◌/◌, ◌%◌, ◌^◌, ◌<◌, ◌≤◌, ◌≡◌, refl, ◌∙◌, ap, true, false, List, [], ◌∷◌,
  ◌++◌, ltb, if◌then◌else◌, ◌==◌, nat_eq, length, length-append, drop, arith, Bool-cases, ltb→lt,
  inl, inr,
}
use native.Mathlib.Nat.{two-pow-succ}
use route_x_reverse_proxy.L7.Patterns.{read_digits, read_var_int, validate_minecraft_java}

-- The protocol's encoding of a number in at most `k` + 1 bytes: digits of seven bits, the least
-- significant first, each but the last marked by its high bit.
unfoldable pub encode : ℕ → ℕ → List ℕ
encode zero n = n ∷ []
encode (suc k) n =
    let more = encode k (n / 128) in if ltb n 128 then n ∷ [] else (n % 128 + 128) ∷ more

-- The numbers of `k` + 1 digits.
abbrev pub limit : ℕ → ℕ
limit zero = 128
limit (suc k) = 128 * limit k

pow_step : (p : ℕ) → 2 ^ (p + 7) ≡ 128 * 2 ^ p
pow_step p =
    let shift : p + 7 ≡ suc (suc (suc (suc (suc (suc (suc p)))))) = omega arith in
    ap (λ n. 2 ^ n) shift
    ∙ omega (
      arith,
      two-pow-succ p,
      two-pow-succ (suc p),
      two-pow-succ (suc (suc p)),
      two-pow-succ (suc (suc (suc p))),
      two-pow-succ (suc (suc (suc (suc p)))),
      two-pow-succ (suc (suc (suc (suc (suc p))))),
      two-pow-succ (suc (suc (suc (suc (suc (suc p)))))),
    )

digits_sum : (q r p : ℕ) → r * p + q * (128 * p) ≡ (q * 128 + r) * p
digits_sum q r p = omega arith

quotient_small : (n m : ℕ) → n < 128 * m → n / 128 < m
quotient_small n m l = omega arith

last_digit :
    (i position value n : ℕ) (rest : List ℕ)
    → n < 128
    → i ≤ 4
    → read_digits i position value (n ∷ rest) ≡ (value + n * 2 ^ position, i + 1)
unfolding read_digits
last_digit i position value n rest l s =
    let short : ltb n 128 ≡ true = ground (arith, l) in
    let digit : n % 128 ≡ n = omega (arith, l) in
    let inside : ltb i 5 ≡ true = ground (arith, s) in rw inside (rw short (rw digit refl))

inner_digit :
    (i position value r : ℕ) (rest : List ℕ)
    → r < 128
    → i ≤ 4
    → read_digits i position value ((r + 128) ∷ rest)
      ≡ read_digits (i + 1) (position + 7) (value + r * 2 ^ position) rest
unfolding read_digits
inner_digit i position value r rest l s =
    let long : ltb (r + 128) 128 ≡ false = ground arith in
    let digit : (r + 128) % 128 ≡ r = omega (arith, l) in
    let inside : ltb i 5 ≡ true = ground (arith, s) in rw inside (rw long (rw digit refl))

sums : (a b i m : ℕ) → a ≡ b → ◌≡◌ {A = ℕ × ℕ} (a, i + 1 + m) (b, i + suc m)
sums a b i m same = let count : i + 1 + m ≡ i + suc m = omega arith in rw same (rw count refl)

first_sum : (a b m : ℕ) → a ≡ b → ◌≡◌ {A = ℕ × ℕ} (a, 0 + m) (b, m)
first_sum a b m same = let count : 0 + m ≡ m = omega arith in rw same (rw count refl)

read_encoded :
    (k i position value n : ℕ) (rest : List ℕ)
    → n < limit k
    → i + k ≤ 4
    → read_digits i position value (encode k n ++ rest)
      ≡ (value + n * 2 ^ position, i + length (encode k n))
unfolding encode
read_encoded zero i position value n rest l s =
    last_digit i position value n rest l (omega (arith, s))
read_encoded (suc k) i position value n rest l s =
    let bound : i ≤ 4 = omega (arith, s) in
    elim (Bool-cases (ltb n 128)) [
      | inl short ↦ rw short (last_digit i position value n rest (ltb→lt n 128 short) bound)
      | inr long ↦
          let later =
            read_encoded k (i + 1) (position + 7) (value + n % 128 * 2 ^ position) (n / 128) rest
              (quotient_small n (limit k) l) (omega (arith, s)) in
          let split : n / 128 * 128 + n % 128 ≡ n = omega arith in
          let power = pow_step position in
          let total : n % 128 * 2 ^ position + n / 128 * (128 * 2 ^ position) ≡ n * 2 ^ position =
            digits_sum (n / 128) (n % 128) (2 ^ position) ∙ ap (λ x. x * 2 ^ position) split in
          rw long (
            inner_digit i position value (n % 128) (encode k (n / 128) ++ rest) (omega arith) bound
            ∙ later
            ∙ sums (value + n % 128 * 2 ^ position + n / 128 * 2 ^ (position + 7))
                (value + n * 2 ^ position) i (length (encode k (n / 128)))
                (omega (arith, ap (λ x. n / 128 * x) power, total)))
    ]

-- Reading a number that the protocol's encoding of at most five bytes holds, below 2 ^ 35, gives the
-- number back, and the length of its encoding, whatever bytes follow.
pub read_var_int-encode :
    (n : ℕ) (rest : List ℕ)
    → n < 2 ^ 35
    → read_var_int (encode 4 n ++ rest) ≡ (n, length (encode 4 n))
unfolding read_var_int
read_var_int-encode n rest l =
    let bound : n < limit 4 = l in
    let digits = read_encoded 4 0 0 0 n rest bound (omega arith) in
    digits ∙ first_sum (0 + n * 2 ^ 0) n (length (encode 4 n)) (omega arith)

drop_encoded : (k n : ℕ) (rest : List ℕ) → drop (length (encode k n)) (encode k n ++ rest) ≡ rest
unfolding encode
drop_encoded zero n rest = refl
drop_encoded (suc k) n rest = ground (arith, drop_encoded k (n / 128) rest)

encode_positive : (k n : ℕ) → 1 ≤ length (encode k n)
unfolding encode
encode_positive zero n = omega arith
encode_positive (suc k) n = ground arith

zero_digit : (rest : List ℕ) → read_var_int (0 ∷ rest) ≡ (0, 1)
unfolding read_var_int read_digits
zero_digit rest = refl

-- A Minecraft handshake passes: an announced length that is not zero, encoded in at most five
-- bytes, the packet identifier 0 after it, and three bytes at least in all.
pub java_handshake_passes :
    (n : ℕ) (rest : List ℕ)
    → 1 ≤ n
    → n < 2 ^ 35
    → 3 ≤ length (encode 4 n ++ 0 ∷ rest)
    → validate_minecraft_java (encode 4 n ++ 0 ∷ rest) ≡ true
unfolding validate_minecraft_java
java_handshake_passes n rest low high size =
    let payload = encode 4 n ++ 0 ∷ rest in
    let packet : (read_var_int (drop (length (encode 4 n)) payload)).0 ≡ 0 =
      rw (drop_encoded 4 n (0 ∷ rest)) (ap (λ r. r.0) (zero_digit rest)) in
    let positive = encode_positive 4 n in
    let whole = length-append (encode 4 n) (0 ∷ rest) in
    let long : ltb (length payload) 3 ≡ false = ground (arith, size) in
    let read : (length (encode 4 n) == 0) ≡ false = ground (arith, positive) in
    let announced : ltb n 1 ≡ false = ground (arith, low) in
    let enough : ltb (length payload) (length (encode 4 n) + 1) ≡ false = ground (arith, whole) in
    rw long (
      rw (read_var_int-encode n (0 ∷ rest) high)
        (rw read (rw announced (rw enough (rw packet refl)))))
