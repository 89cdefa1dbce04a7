-- ===== src/Robots/Parse/Groups.antt =====
-- What `parse_robots_document` of crates/erabi-crawler/src/robots.rs puts into a policy.
use erabi.Text.{Text}
