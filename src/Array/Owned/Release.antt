-- ===== src/Array/Owned/Release.antt =====
-- About `kira_array_release` of runtime_helpers_arrays.inc and what an array owns.
use kira_zig.BridgeValue.{BridgeValue}
