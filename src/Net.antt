-- ===== src/Net.antt =====
-- What the program uses of Go's `net.IP` and `net.IPNet`: addresses as byte slices (`nil` is the
-- empty slice), their IPv4 forms, equality, and containment in a masked network. The textual forms
-- (`ParseIP`, `ParseCIDR`, `IP.String`) are parameters of the definitions that use them.
use route_x_reverse_proxy.Common.{
  ℕ, Bool, true, false, ◌&&◌, List, [], ◌∷◌, length, drop, replicate, take, ◌==◌, if◌then◌else◌,
  nat_eq,
}
use Prim.Native.Nat.{bit_and}

abbrev pub Ip : Type 0
Ip = List ℕ

abbrev pub is_nil : Ip → Bool
is_nil [] = true
is_nil (b ∷ bs) = false

-- `bytes.Equal`.
unfoldable pub bytes_equal : List ℕ → List ℕ → Bool
bytes_equal [] [] = true
bytes_equal (a ∷ as') (b ∷ bs) = a == b && bytes_equal as' bs
bytes_equal _ _ = false

-- The twelve bytes before an IPv4 address in its IPv6 form.
abbrev pub v4_prefix : List ℕ
v4_prefix = 0 ∷ 0 ∷ 0 ∷ 0 ∷ 0 ∷ 0 ∷ 0 ∷ 0 ∷ 0 ∷ 0 ∷ 255 ∷ 255 ∷ []

unfoldable pub to4 : Ip → Ip
unfolding bytes_equal
to4 ip =
    if length ip == 4
    then ip
    else if length ip == 16 && bytes_equal (take 12 ip) v4_prefix
    then drop 12 ip
    else []

unfoldable pub ip_equal : Ip → Ip → Bool
unfolding bytes_equal
ip_equal ip x =
    if length ip == length x
    then bytes_equal ip x
    else if length ip == 4 && length x == 16
    then bytes_equal (take 12 x) v4_prefix && bytes_equal ip (drop 12 x)
    else if length ip == 16 && length x == 4
    then bytes_equal (take 12 ip) v4_prefix && bytes_equal (drop 12 ip) x
    else false

pub record IpNet : Type 0 where
  pub ip : Ip
  pub mask : List ℕ

-- `CIDRMask(8 * n, 8 * n)`: all ones.
abbrev pub full_mask : ℕ → List ℕ
full_mask n = replicate n 255

-- `networkNumberAndMask`: the empty pair stands for `nil, nil`.
unfoldable pub network_number : IpNet → Ip × List ℕ
unfolding to4
network_number n =
    let v4 = to4 n.ip in
    let four =
      if length n.mask == 4
      then (v4, n.mask)
      else if length n.mask == 16
      then (v4, drop 12 n.mask)
      else ([], []) in
    let six = if length n.mask == 16 then (n.ip, n.mask) else ([], []) in
    if length v4 == 4 then four else if length n.ip == 16 then six else ([], [])

masked_equal : List ℕ → List ℕ → List ℕ → Bool
masked_equal (a ∷ as') (m ∷ ms) (b ∷ bs) = bit_and a m == bit_and b m && masked_equal as' ms bs
masked_equal _ _ _ = true

-- `IPNet.Contains`.
unfoldable pub contains : IpNet → Ip → Bool
unfolding network_number masked_equal
contains n ip =
    let v4 = to4 ip in
    let x = if is_nil v4 then ip else v4 in
    let (nn, m) = network_number n in if length x == length nn then masked_equal nn m x else false
