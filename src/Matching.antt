-- ===== src/Matching.antt =====
-- matching.py: bidder facts, the catalog, the matchers, and the analysis of all requirements.
-- A rationale is cut to the fixed part of its message.
pub mod Facts
pub mod Policies
pub mod Profile
pub mod Candidates
pub mod Catalog
pub mod Totals
pub mod Analysis
pub mod Covered
pub mod Overflow
pub mod Returns
pub mod Blocking
