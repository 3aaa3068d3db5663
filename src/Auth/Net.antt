-- ===== src/Auth/Net.antt =====
-- crates/breeze-auth/src/net.rs: whether a request is from the local network. An address is its four
-- bytes or its eight segments; `str::parse` of an address is the parameter `parse_ip`.
use Prim.Native.Nat.{bit_and}
use breeze_core_native.Common.{
  ℕ, Bool, false, ◌&&◌, ◌||◌, Option, none, some, List, [], ◌∷◌, leb, ◌==◌, if◌then◌else◌, any,
}
use breeze_core_native.Common.Texts.{trim}

pub data IpAddr : Type 0 where
  v4 : ℕ → ℕ → ℕ → ℕ → IpAddr
  v6 : ℕ → ℕ → ℕ → ℕ → ℕ → ℕ → ℕ → ℕ → IpAddr

-- `rsplit(',').next()`: what stands behind the last comma.
abbrev pub last_entry : List ℕ → List ℕ
last_entry [] = []
last_entry (c ∷ cs) =
    let rest = last_entry cs in if any (λ d. d == b',') (c ∷ cs) then rest else c ∷ cs

module _ (parse_ip : List ℕ → Option IpAddr) where
  abbrev or_peer : Option IpAddr → Option IpAddr → Option IpAddr
  or_peer peer none = peer
  or_peer peer (some ip) = some ip

  unfoldable pub client_ip : Option IpAddr → Option (List ℕ) → Bool → Option IpAddr
  client_ip peer none behind_proxy = peer
  client_ip peer (some forwarded_for) behind_proxy =
      if behind_proxy then or_peer peer (parse_ip (trim (last_entry forwarded_for))) else peer

-- `Ipv4Addr::is_private`, `is_loopback` and `is_link_local`, and the prefixes of the code.
unfoldable pub is_private_ip : Option IpAddr → Bool
is_private_ip none = false
is_private_ip (some (v4 a b c d)) =
    a == 10
    || (a == 172 && (leb 16 b && leb b 31))
    || (a == 192 && b == 168)
    || a == 127
    || (a == 169 && b == 254)
is_private_ip (some (v6 a b c d e f g h)) =
    (a == 0 && (b == 0 && (c == 0 && (d == 0 && (e == 0 && (f == 0 && (g == 0 && h == 1)))))))
    || bit_and a 0xfe00 == 0xfc00
    || bit_and a 0xffc0 == 0xfe80
