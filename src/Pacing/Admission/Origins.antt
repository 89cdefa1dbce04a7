-- ===== src/Pacing/Admission/Origins.antt =====
-- Equality of the origin keys of crates/erabi-crawler/src/pacing.rs.
use erabi.Base.{◌≡◌, ◌↔◌, true, arith}
use erabi.Text.Search.{text_eq_iff}
use erabi.Pacing.{OriginKey}
use erabi.Pacing.Admission.{origin_eq}

pub origin_eq_iff : (a b : OriginKey) → (origin_eq a b ≡ true) ↔ (a ≡ b)
origin_eq_iff a b = ground (arith, text_eq_iff a.scheme b.scheme, text_eq_iff a.host b.host)
