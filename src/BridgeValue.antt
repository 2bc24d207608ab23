-- ===== src/BridgeValue.antt =====
-- `KiraBridgeValue` of packages/kira_native_bridge/src/runtime_helpers.c: the tagged value that
-- crosses between native code and the runtime. The tag is the constructor. A pointer is its
-- address, a float its bit pattern.
use kira_zig.Common.{ℕ, ℤ, Bool, true, false}

pub data BridgeValue : Type 0 where
  void : BridgeValue
  integer : ℤ → BridgeValue
  float : ℕ → BridgeValue
  string : (ptr len : ℕ) → BridgeValue
  boolean : ℕ → BridgeValue
  raw_ptr : ℕ → BridgeValue

abbrev pub is_void : BridgeValue → Bool
is_void void = true
is_void _ = false
