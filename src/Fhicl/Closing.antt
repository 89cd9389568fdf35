-- ===== src/Fhicl/Closing.antt =====
-- rc/control/utilities.py, `enclosing_table_range`: where the range ends.
