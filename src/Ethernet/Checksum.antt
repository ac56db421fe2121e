-- ===== src/Ethernet/Checksum.antt =====
-- The checksum of an IPv4 header, by its receiver's test: the words of the header sum to 0xffff, with
-- the carries added in.
