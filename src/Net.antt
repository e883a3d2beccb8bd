-- ===== src/Net.antt =====
-- What the program uses of Go's package `net`, as a parameter of the definitions that call it.
use wireguide.Base.{ℕ, Bool, Option}
use wireguide.Base.Bytes.{Bytes}

pub record Net : Type 0 where
  -- `net.ParseIP(s) != nil`
  pub is_ip : Bytes → Bool
  -- `net.ParseIP(s).To4() != nil`, for an `s` that is an IP
  pub is_ip4 : Bytes → Bool
  -- `net.ParseCIDR(s)`, then `Mask.Size()`: the ones and the bits, or the error
  pub mask_size : Bytes → Option (ℕ × ℕ)
  -- `net.SplitHostPort(s)`: host and port, or the error
  pub split_host_port : Bytes → Option (Bytes × Bytes)
  -- `net.JoinHostPort(host, port)`
  pub join_host_port : Bytes → Bytes → Bytes
