-- ===== src/Policy/Examples.antt =====
-- The theorems about roles and plans at one membership.
