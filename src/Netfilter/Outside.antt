-- ===== src/Netfilter/Outside.antt =====
-- src/netfilter.rs: what a packet from outside can reach.
