-- ===== src/Host.antt =====
-- src/host_match.c and src/host_match.h: the matching core of the egress allowlist.
-- The children model hostname rules (Rules), sensitive-host labels (Cover), the scan of free text
-- for a covered host (Scan, with its proof in Found), and address rules (Cidr).
pub mod Rules
pub mod Cover
pub mod Scan
pub mod Cidr
mod Examples
