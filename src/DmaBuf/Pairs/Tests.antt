-- ===== src/DmaBuf/Pairs/Tests.antt =====
-- The theorem about the linked samples at a concrete kernel.
use sample_code.DmaBuf.Pairs
