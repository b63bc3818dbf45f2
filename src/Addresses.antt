-- ===== src/Addresses.antt =====
-- `std::net::SocketAddr`. The number of an IPv6 address stands for its flow and scope too.
use rust_torrent.Prelude.{ℕ, Bool, ◌&&◌, ◌==◌, same_bool}

pub record SocketAddr : Type 0 where
  pub is_ipv6 : Bool
  pub ip : ℕ
  pub port : ℕ

abbrev pub same_addr : SocketAddr → SocketAddr → Bool
same_addr a b = same_bool a.is_ipv6 b.is_ipv6 && (a.ip == b.ip && a.port == b.port)
