-- ===== src/Events/Kinds.antt =====
-- The argument of the templates of include/LateJoiner.h: DataReader or DataWriter.

pub data Kind : Type 0 where
  of_reader : Kind
  of_writer : Kind
