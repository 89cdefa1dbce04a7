-- ===== src/Url.antt =====
-- What the program reads of a `url::Url`, a type of the url crate: one field for each accessor that
-- it calls. The crate's parser is not part of the program, so a URL is any value of this record.
use erabi.Base.{ℕ, Option}
use erabi.Text.{Text}

-- An IPv6 address is its eight 16-bit segments, an IPv4 address its four octets.
pub record Ipv4Addr : Type 0 where
  pub first : ℕ
  pub second : ℕ
  pub third : ℕ
  pub fourth : ℕ

pub record Ipv6Addr : Type 0 where
  pub s0 : ℕ
  pub s1 : ℕ
  pub s2 : ℕ
  pub s3 : ℕ
  pub s4 : ℕ
  pub s5 : ℕ
  pub s6 : ℕ
  pub s7 : ℕ

pub data Host : Type 0 where
  domain : Text → Host
  ipv4 : Ipv4Addr → Host
  ipv6 : Ipv6Addr → Host

pub record Url : Type 0 where
  pub scheme : Text
  pub username : Text
  pub password : Option Text
  pub host : Option Host
  pub host_str : Option Text
  pub port_or_known_default : Option ℕ
  pub path : Text
  pub query : Option Text
  pub fragment : Option Text
