-- ===== src/Font/Tests.antt =====
-- Glyphs at concrete characters.
