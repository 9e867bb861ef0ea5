-- ===== src/Mdns/Safety.antt =====
-- No datagram makes the mDNS parser read out of bounds.
