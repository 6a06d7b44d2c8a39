-- ===== src/Vsol/SnmpIndex/RoundTrip.antt =====
-- vendors/vsol/snmp_oids.go: printing and parsing of indices and ports.
use nano_southbound.Prelude.{
  map, ◌≢◌, suc, ◌≡◌, refl, ◌==◌, true, List, [], ◌∷◌, ◌++◌, arith, every, ℤ, pos, negsuc,
}
use nano_southbound.Go.Text.{Text, codes, split, join, is_digit, has_prefix, trim_prefix}
use nano_southbound.Go.Text.Words.{Lacks, split-join}
use nano_southbound.Go.Number.{itoa, atoi-itoa, InRange, every-format_nat, format_nat}
use nano_southbound.Go.Decimal.{itoa-IsWord}
use nano_southbound.Go.Result.{ok}
use nano_southbound.Vsol.SnmpIndex.{
  strip_leading_dot, parse_onu_index, parse_onu_vlan_index, pon_index_to_port, port_to_pon_index,
  two_numbers, three_numbers,
}

digits-Lacks_dot : (s : Text) → every is_digit s ≡ true → Lacks (λ d. d == b'.') s
digits-Lacks_dot [] h = refl
digits-Lacks_dot (c ∷ s) h = ground (arith, digits-Lacks_dot s)

itoa-Lacks_dot : (z : ℤ) → Lacks (λ d. d == b'.') (itoa z)
unfolding itoa
itoa-Lacks_dot (pos n) = digits-Lacks_dot (format_nat n) (every-format_nat n)
itoa-Lacks_dot (negsuc n) = digits-Lacks_dot (format_nat (suc n)) (every-format_nat (suc n))

strip_leading_dot-Lacks :
    (s t : Text) → Lacks (λ d. d == b'.') s → s ≢ [] → strip_leading_dot (s ++ t) ≡ s ++ t
unfolding strip_leading_dot
strip_leading_dot-Lacks [] t h n = absurd (n refl)
strip_leading_dot-Lacks (c ∷ s) t h n = ground arith

-- An index of a table, the numbers with dots between them
abbrev pub index_of : List ℤ → Text
index_of zs = join (map itoa zs) (codes ".")

two_numbers-itoa :
    (index : Text) (pon onu : ℤ)
    → InRange pon
    → InRange onu
    → two_numbers index (itoa pon ∷ itoa onu ∷ []) ≡ ok (pon, onu)
two_numbers-itoa index pon onu h k = ground (arith, atoi-itoa pon h, atoi-itoa onu k)

three_numbers-itoa :
    (index : Text) (pon onu gem : ℤ)
    → InRange pon
    → InRange onu
    → InRange gem
    → three_numbers index (itoa pon ∷ itoa onu ∷ itoa gem ∷ []) ≡ ok (pon, onu, gem)
three_numbers-itoa index pon onu gem h k l =
    ground (arith, atoi-itoa pon h, atoi-itoa onu k, atoi-itoa gem l)

strip-index :
    (z y : ℤ) (ys : List ℤ) → strip_leading_dot (index_of (z ∷ y ∷ ys)) ≡ index_of (z ∷ y ∷ ys)
unfolding join
strip-index z y ys =
    strip_leading_dot-Lacks (itoa z) (b'.' ∷ join (map itoa (y ∷ ys)) (codes "."))
      (itoa-Lacks_dot z) ((itoa-IsWord z).0)

strip-dot : (s : Text) → strip_leading_dot (b'.' ∷ s) ≡ s
unfolding strip_leading_dot
strip-dot s = refl

split-two : (z y : ℤ) → split (index_of (z ∷ y ∷ [])) b'.' ≡ itoa z ∷ itoa y ∷ []
split-two z y = split-join b'.' (itoa z) (itoa y ∷ []) (itoa-Lacks_dot z, (itoa-Lacks_dot y, tt))

split-three : (z y x : ℤ) → split (index_of (z ∷ y ∷ x ∷ [])) b'.' ≡ itoa z ∷ itoa y ∷ itoa x ∷ []
split-three z y x =
    split-join b'.' (itoa z) (itoa y ∷ itoa x ∷ [])
      (itoa-Lacks_dot z, (itoa-Lacks_dot y, (itoa-Lacks_dot x, tt)))

two_index :
    (pon onu : ℤ) (s : Text)
    → InRange pon
    → InRange onu
    → strip_leading_dot s ≡ index_of (pon ∷ onu ∷ [])
    → parse_onu_index s ≡ ok (pon, onu)
unfolding parse_onu_index
two_index pon onu s h k e =
    rw (e, split-two pon onu) (two_numbers-itoa (index_of (pon ∷ onu ∷ [])) pon onu h k)

three_index :
    (pon onu gem : ℤ) (s : Text)
    → InRange pon
    → InRange onu
    → InRange gem
    → strip_leading_dot s ≡ index_of (pon ∷ onu ∷ gem ∷ [])
    → parse_onu_vlan_index s ≡ ok (pon, onu, gem)
unfolding parse_onu_vlan_index
three_index pon onu gem s h k l e =
    rw (e, split-three pon onu gem)
      (three_numbers-itoa (index_of (pon ∷ onu ∷ gem ∷ [])) pon onu gem h k l)

-- The indices of ONUs and of their VLANs are read back from the numbers with dots between them, with
-- and without a dot in front.
pub parse_index-index_of :
    (pon onu gem : ℤ)
    → InRange pon
    → InRange onu
    → InRange gem
    → (parse_onu_index (index_of (pon ∷ onu ∷ [])) ≡ ok (pon, onu))
      × (parse_onu_index (b'.' ∷ index_of (pon ∷ onu ∷ [])) ≡ ok (pon, onu))
      × (parse_onu_vlan_index (index_of (pon ∷ onu ∷ gem ∷ [])) ≡ ok (pon, onu, gem))
      × (parse_onu_vlan_index (b'.' ∷ index_of (pon ∷ onu ∷ gem ∷ [])) ≡ ok (pon, onu, gem))
parse_index-index_of pon onu gem h k l = (
  two_index pon onu (index_of (pon ∷ onu ∷ [])) h k (strip-index pon onu []),
  two_index pon onu (b'.' ∷ index_of (pon ∷ onu ∷ [])) h k (strip-dot _),
  three_index pon onu gem (index_of (pon ∷ onu ∷ gem ∷ [])) h k l (strip-index pon onu (gem ∷ [])),
  three_index pon onu gem (b'.' ∷ index_of (pon ∷ onu ∷ gem ∷ [])) h k l (strip-dot _),
)

-- A PON index is read back from the name of its port, and from the bare number if that is no name of
-- a port.
pub port_to_pon_index-pon_index_to_port :
    (pon : ℤ) → InRange pon → port_to_pon_index (pon_index_to_port pon) ≡ ok pon
unfolding port_to_pon_index pon_index_to_port has_prefix trim_prefix
port_to_pon_index-pon_index_to_port pon h = ground (arith, atoi-itoa pon h)
