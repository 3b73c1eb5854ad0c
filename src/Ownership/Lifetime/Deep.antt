-- ===== src/Ownership/Lifetime/Deep.antt =====
-- rvalue_reference/demo1_deep_copy.cpp: any constructions and copies in a scope.
use cpp_example.Ownership.Holder.{Holder}
