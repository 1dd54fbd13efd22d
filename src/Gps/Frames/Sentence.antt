-- ===== src/Gps/Frames/Sentence.antt =====
-- `parse_buf` of uart/read_gps.c on a sentence among other bytes.
